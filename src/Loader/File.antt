-- ===== src/Loader/File.antt =====
-- `parse_xml_file` of libedistruct/struct_loader.c, over an XML parser that is not part of the
-- program.
use libedi.Base.{
  ℕ, zero, suc, ◌+◌, Bool, List, [], ◌++◌, Option, none, some, length, take, drop, ltb,
  if◌then◌else◌,
}
use mathlib.Core.Option
use libedi.Base.Chars.{Bytes}
use libedi.Loader.Memory.{◌>>=◌}
use libedi.Loader.Driver.{Event, Handlers, Helper, handle_all}

-- expat, as far as the loader uses it: `XML_ParserCreate`, and `XML_Parse` with a buffer and the flag
-- that it is the last one, which calls the handlers and returns the parser's next state, or
-- `XML_STATUS_ERROR`, which is `none`.
pub record Expat : Type 1 where
  pub State : Type 0
  pub create : State
  pub parse : State → Bytes → Bool → List Event × Option State

-- `PARSE_BUFFER_SIZE`
abbrev pub parse_buffer_size : ℕ
parse_buffer_size = 8192

-- The results 0, 1 and -1 of `parse_xml_file`.
pub data Status : Type 0 where
  loaded bad_xml no_file : Status

-- The result, and what the handlers made of their state; `unfinished` is fuel that ran out.
pub data Parsed (S : Type 0) : Type 0 where
  parsed : Status → S → Parsed S
  unfinished : Parsed S

module _ (expat : Expat) {S : Type 0} (h : Handlers S) where
  open expat use {State}

  -- The test of the result of `XML_Parse`, and that of the loop.
  abbrev pub next_buffer :
      Bool → (State → Helper S → Option (Parsed S)) → Option State → Helper S → Option (Parsed S)
  next_buffer done again none self = some (parsed bad_xml self.user)
  next_buffer done again (some p) self =
      let rest = again p self in if done then some (parsed loaded self.user) else rest

  -- The loop. A read returns as many bytes as the buffer holds, unless the file has fewer.
  unfoldable pub read_loop : ℕ → State → Bytes → Helper S → Option (Parsed S)
  unfolding handle_all
  read_loop zero p file self = some unfinished
  read_loop (suc fuel) p file self =
      let buf = take parse_buffer_size file in
      let done = ltb (length buf) parse_buffer_size in
      let (events, p') = expat.parse p buf done in
      handle_all h events self
      >>= next_buffer done (λ q self'. read_loop fuel q (drop parse_buffer_size file) self') p'

  -- `parse_xml_file`; a file that cannot be opened is `none`.
  unfoldable pub parse_xml_file : Option Bytes → S → Option (Parsed S)
  unfolding read_loop
  parse_xml_file none ud = some (parsed no_file ud)
  parse_xml_file (some file) ud =
      read_loop (length file + 1) expat.create file (record { path = []; user = ud })

-- What a loader returns and leaves in its output, which is `old` before: the table that it read, if
-- there was no error.
abbrev pub published {ℓ} : {A : Type ℓ} {S : Type 0} → A → (S → A) → Parsed S → Option (Status × A)
published old table (parsed loaded self) = some (loaded, table self)
published old table (parsed bad_xml self) = some (bad_xml, old)
published old table (parsed no_file self) = some (no_file, old)
published old table unfinished = none

-- What expat calls the handlers with over a whole file, in the buffers in which the loader reads it;
-- `none` if it finds an error.
module _ (expat : Expat) where
  open expat use {State}

  abbrev pub next_events : Bool → (State → Option (List Event)) → Option State → Option (List Event)
  next_events done again none = none
  next_events done again (some p) = let rest = again p in if done then some [] else rest

  unfoldable pub events_from : ℕ → State → Bytes → Option (List Event)
  events_from zero p file = none
  events_from (suc fuel) p file =
      let buf = take parse_buffer_size file in
      let done = ltb (length buf) parse_buffer_size in
      let (events, p') = expat.parse p buf done in
      Option.map (◌++◌ events)
        (next_events done (λ q. events_from fuel q (drop parse_buffer_size file)) p')

  unfoldable pub events_in : Bytes → Option (List Event)
  unfolding events_from
  events_in file = events_from (length file + 1) expat.create file
