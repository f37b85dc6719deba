-- ===== src/Loader/Buffers.antt =====
-- The loop of `parse_xml_file` of libedistruct/struct_loader.c: it ends, and the handlers get
-- the events of its buffers one after the other.
use libedi.Base.{
  ℕ, zero, suc, ◌+◌, ◌<◌, Bool, true, false, List, [], ◌∷◌, ◌++◌, Option, none, some, ◌≡◌, ◌≢◌,
  refl, ap, ◌∙◌, sym, arith, length, length-take, length-drop, take, drop, append-nil, ltb, some_eq,
}
use mathlib.Core.Option
use mathlib.Core.Path.{fun_ext}
use libedi.Base.Chars.{Bytes}
use libedi.Loader.Memory.{◌>>=◌, >>=_assoc}
use libedi.Loader.Driver.{Event, Handlers, Helper, handle, handle_all}
use libedi.Loader.File.{
  Expat, parse_buffer_size, Parsed, parsed, unfinished, loaded, next_buffer, read_loop,
  parse_xml_file, next_events, events_from, events_in,
}

pub handle_all-append :
    {S : Type 0} (h : Handlers S) (xs ys : List Event) (s : Helper S)
    → handle_all h (xs ++ ys) s ≡ (handle_all h xs s >>= handle_all h ys)
unfolding handle_all
handle_all-append h [] ys s = refl
handle_all-append {S} h (x ∷ xs) ys s = by_first (handle h x s) (handle_all-append h xs ys)
  where
    by_first :
        (o : Option (Helper S))
        → ((t : Helper S) → handle_all h (xs ++ ys) t ≡ (handle_all h xs t >>= handle_all h ys))
        → (o >>= handle_all h (xs ++ ys)) ≡ ((o >>= handle_all h xs) >>= handle_all h ys)
    by_first none ih = refl
    by_first (some t) ih = ih t

module _ (expat : Expat) {S : Type 0} (h : Handlers S) where
  open expat use {State}

  mapped :
      {es : List Event} (ds : List Event) (o : Option (List Event))
      → Option.map (◌++◌ ds) o ≡ some es
      → (fs : List Event) × (o ≡ some fs) × (ds ++ fs ≡ es)
  mapped ds none e = cc
  mapped ds (some fs) e = (fs, refl, some_eq e)

  abbrev finish : Helper S → Option (Parsed S)
  finish self = some (parsed loaded self.user)

  -- With the events of the rest of the file, the loop is one call of the handlers for each.
  read_loop-events :
      (fuel : ℕ) (p : State) (file : Bytes) (self : Helper S) (es : List Event)
      → events_from expat fuel p file ≡ some es
      → read_loop expat h fuel p file self ≡ (handle_all h es self >>= finish)
  unfolding events_from read_loop
  read_loop-events zero p file self es e = cc
  read_loop-events (suc fuel) p file self es e =
      let buf = take parse_buffer_size file in
      let done = ltb (length buf) parse_buffer_size in
      let (events, p') = expat.parse p buf done in by_state p' events done e (read_loop-events fuel)
    where
      by_state :
          (p' : Option State) (events : List Event) (done : Bool)
          → Option.map (◌++◌ events) (
              next_events expat done
                (λ q. events_from expat fuel q (drop parse_buffer_size file))
                p')
            ≡ some es
          → ((q : State) (rest : Bytes) (t : Helper S) (fs : List Event)
              → events_from expat fuel q rest ≡ some fs
              → read_loop expat h fuel q rest t ≡ (handle_all h fs t >>= finish))
          → (handle_all h events self
              >>= next_buffer expat h done
                  (λ q t. read_loop expat h fuel q (drop parse_buffer_size file) t)
                  p')
            ≡ (handle_all h es self >>= finish)
      by_state none events done k ih = cc
      by_state (some q) events true k ih =
          ap (λ xs. handle_all h xs self >>= finish) (sym (append-nil events) ∙ some_eq k)
      by_state (some q) events false k ih =
          let rest = drop parse_buffer_size file in
          let (fs, e, f) = mapped events (events_from expat fuel q rest) k in
          ap (λ f. handle_all h events self >>= f) (fun_ext (λ t. ih q rest t fs e))
          ∙ sym (>>=_assoc (handle_all h events self) (handle_all h fs) finish)
          ∙ ap (λ o. o >>= finish) (sym (handle_all-append h events fs self))
          ∙ ap (λ xs. handle_all h xs self >>= finish) f

  -- With fuel above the length of the file, the loop does not run out of it.
  read_loop_total :
      (fuel : ℕ) (p : State) (file : Bytes) (self : Helper S)
      → length file < fuel
      → read_loop expat h fuel p file self ≢ some unfinished
  unfolding read_loop
  read_loop_total zero p file self lt = absurd (omega arith)
  read_loop_total (suc fuel) p file self lt =
      let buf = take parse_buffer_size file in
      let (events, p') = expat.parse p buf (ltb (length buf) parse_buffer_size) in
      by_state p' (handle_all h events self) (ltb (length buf) parse_buffer_size) refl
        (read_loop_total fuel)
    where
      rest : Bytes
      rest = drop parse_buffer_size file

      by_state :
          (p' : Option State) (o : Option (Helper S)) (done : Bool)
          → ltb (length (take parse_buffer_size file)) parse_buffer_size ≡ done
          → ((q : State) (left : Bytes) (t : Helper S)
              → length left < fuel
              → read_loop expat h fuel q left t ≢ some unfinished)
          → (o >>= next_buffer expat h done (λ q t. read_loop expat h fuel q rest t) p')
            ≢ some unfinished
      by_state p' none done d ih = λ e. cc
      by_state none (some t) done d ih = λ e. cc
      by_state (some q) (some t) true d ih = λ e. cc
      by_state (some q) (some t) false d ih =
          let shorter : length rest < fuel =
            ground
              (arith, length-take parse_buffer_size file, length-drop parse_buffer_size file) in
          ih q rest t shorter

  -- Reading a file ends, whatever the XML parser and the handlers make of it.
  parse_xml_file_total :
      (file : Option Bytes) (ud : S) → parse_xml_file expat h file ud ≢ some unfinished
  unfolding parse_xml_file
  parse_xml_file_total none ud = λ e. cc
  parse_xml_file_total (some file) ud =
      read_loop_total (length file + 1) expat.create file (record { path = []; user = ud })
        (omega arith)

  -- Where the XML parser finds no error in a file, the handlers come to what the events of all its
  -- buffers make of their state, one after the other.
  pub parse_xml_file-events :
      (file : Bytes) (ud : S) (es : List Event)
      → events_in expat file ≡ some es
      → parse_xml_file expat h (some file) ud ≡ (
          handle_all h es (record { path = []; user = ud }) >>= λ self.
          some (parsed loaded self.user))
  unfolding parse_xml_file events_in
  parse_xml_file-events file ud es e = read_loop-events (length file + 1) expat.create file _ es e
