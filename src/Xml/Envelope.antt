-- ===== src/Xml/Envelope.antt =====
-- The envelope of interchanges, groups and messages that `edi2xml_conv` of libedixml/conv.c writes.
use libedi.Base.{false, List, [], ◌∷◌, some, ◌≡◌, ◌≢◌, ◌⊎◌}
use libedi.Base.Chars.{Bytes, codes, same_text}
use libedi.Interchange.{Value, Segment, Interchange, Parser}
use libedi.Detect.Registry.{Registry}

-- The tag of a segment that opens the element `n`, and of one that closes it.
abbrev pub Opens : Bytes → Bytes → Type 0
Opens tag n =
    ((tag ≡ codes "UNB") × (n ≡ codes "X:interchange"))
    ⊎ ((tag ≡ codes "UNG") × (n ≡ codes "X:group"))
    ⊎ ((tag ≡ codes "UNH") × (n ≡ codes "X:message"))

abbrev pub Closes : Bytes → Bytes → Type 0
Closes tag n =
    ((tag ≡ codes "UNZ") × (n ≡ codes "X:interchange"))
    ⊎ ((tag ≡ codes "UNE") × (n ≡ codes "X:group"))
    ⊎ ((tag ≡ codes "UNT") × (n ≡ codes "X:message"))

-- The tag of a segment that does neither.
pub record IsInside (tag : Bytes) : Type 0 where
  pub no_unb : same_text tag (codes "UNB") ≡ false
  pub no_ung : same_text tag (codes "UNG") ≡ false
  pub no_unh : same_text tag (codes "UNH") ≡ false
  pub no_unz : same_text tag (codes "UNZ") ≡ false
  pub no_une : same_text tag (codes "UNE") ≡ false
  pub no_unt : same_text tag (codes "UNT") ≡ false

-- A segment with an element, and its tag.
abbrev pub IsRead : Segment → Value → Type 0
IsRead s t = (s.tag ≡ some t) × (s.elements ≢ [])

-- The service segments are nested: they lead from the open elements of the first list to those of
-- the second.
pub data Encloses : List Bytes → List Segment → List Bytes → Type 0 where
  no_segment : {st : List Bytes} → Encloses st [] st
  header :
      {st st' : List Bytes} {s : Segment} {ss : List Segment} (t : Value) (n : Bytes)
      → IsRead s t
      → Opens t.text n
      → Encloses (n ∷ st) ss st'
      → Encloses st (s ∷ ss) st'
  trailer :
      {st st' : List Bytes} {s : Segment} {ss : List Segment} (t : Value) (n : Bytes)
      → IsRead s t
      → Closes t.text n
      → Encloses st ss st'
      → Encloses (n ∷ st) (s ∷ ss) st'
  inside :
      {st st' : List Bytes} {s : Segment} {ss : List Segment} (t : Value)
      → IsRead s t
      → IsInside t.text
      → Encloses st ss st'
      → Encloses st (s ∷ ss) st'
