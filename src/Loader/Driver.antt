-- ===== src/Loader/Driver.antt =====
-- The driver of libedistruct/struct_loader.c: it calls the handlers of a loader with the path of the
-- element that expat is in.
use libedi.Base.{
  ℕ, ◌+◌, ◌-◌, List, [], ◌∷◌, ◌++◌, Option, none, some, length, take, ltb, leb, if◌then◌else◌,
}
use libedi.Base.Chars.{Bytes, codes}
use libedi.Loader.Memory.{◌>>=◌}

-- `XPATH_MAX`
abbrev pub xpath_max : ℕ
xpath_max = 512

-- What expat calls the driver with.
pub data Event : Type 0 where
  start : Bytes → List (Bytes × Bytes) → Event
  end : Bytes → Event
  cdata : Bytes → Event

-- The handlers of a loader, none of which is NULL; `none` is undefined behaviour.
pub record Handlers (S : Type 0) : Type 0 where
  pub on_start : Bytes → S → Option S
  pub on_end : Bytes → S → Option S
  pub on_cdata : Bytes → Bytes → S → Option S

-- `strncat(path, s, sizeof(path))`: at most 512 bytes are appended, whatever room there is.
unfoldable pub strncat : Bytes → Bytes → Option Bytes
strncat path s =
    let joined = path ++ take xpath_max s in
    if ltb (length joined) xpath_max then some joined else none

-- `self->path[plen - nlen - 1] = '\0'`
unfoldable pub cut_path : Bytes → Bytes → Option Bytes
cut_path path name =
    if leb (length name + 1) (length path)
    then some (take (length path - length name - 1) path)
    else none

-- `struct parser_helper`, with what its `ud` points to.
pub record Helper (S : Type 0) : Type 0 where
  pub path : Bytes
  pub user : S

module _ {S : Type 0} (h : Handlers S) where
  -- The loop over the attributes.
  unfoldable pub attributes : Bytes → List (Bytes × Bytes) → S → Option S
  unfolding strncat
  attributes path [] s = some s
  attributes path ((name, value) ∷ attrs) s = do
    p ← strncat path (codes "/@")
    p ← strncat p name
    s ← h.on_cdata p value s
    attributes path attrs s

  -- `startElement`
  unfoldable pub start_element : Bytes → List (Bytes × Bytes) → Helper S → Option (Helper S)
  unfolding strncat attributes
  start_element name attrs self = do
    path ← strncat self.path (codes "/")
    path ← strncat path name
    user ← h.on_start path self.user
    user ← attributes path attrs user
    some (record { path = path; user = user })

  -- `endElement`
  unfoldable pub end_element : Bytes → Helper S → Option (Helper S)
  unfolding cut_path
  end_element name self = do
    user ← h.on_end self.path self.user
    path ← cut_path self.path name
    some (record { path = path; user = user })

  -- `characterData`
  unfoldable pub character_data : Bytes → Helper S → Option (Helper S)
  character_data s self = do
    user ← h.on_cdata self.path s self.user
    some (record self { user = user })

  abbrev pub handle : Event → Helper S → Option (Helper S)
  handle (start name attrs) = start_element name attrs
  handle (end name) = end_element name
  handle (cdata s) = character_data s

  -- What expat does with the handlers that it was given.
  unfoldable pub handle_all : List Event → Helper S → Option (Helper S)
  unfolding start_element end_element character_data
  handle_all [] self = some self
  handle_all (e ∷ es) self = do self ← handle e self; handle_all es self
