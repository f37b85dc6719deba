-- ===== src/Xml/Nested.antt =====
-- The tags that libedixml/conv.c writes are nested.
use libedi.Base.{
  Bool, true, false, List, [], ◌∷◌, ◌++◌, Option, none, some, ◌≡◌, refl, ap, ◌∙◌, if◌then◌else◌,
}
use libedi.Base.Chars.{Bytes, codes}
use libedi.Struct.Lookup.{Found, hit, miss, fault, unfinished}
use libedi.Xml.Tokens.{
  Token, open_tag, close_tag, empty_tag, coded_tag, open_with, comment, text, call, output_plain,
  Ran, and_then, behind, returns, output, string,
}
use libedi.Xml.Elements.{search}

-- Output that is read with the tags of the first list open, innermost first, and that leaves those
-- of the second.
pub data Moves : List Bytes → List Token → List Bytes → Type 0 where
  no_token : {st : List Bytes} → Moves st [] st
  starts :
      {st st' : List Bytes} {ts : List Token} (args : Bool)
      → Moves st ts st'
      → Moves st (call args ∷ ts) st'
  empty :
      {st st' : List Bytes} {ts : List Token} (n : Bytes)
      → Moves st ts st'
      → Moves st (empty_tag n ∷ ts) st'
  remark :
      {st st' : List Bytes} {ts : List Token} (c : Bytes)
      → Moves st ts st'
      → Moves st (comment c ∷ ts) st'
  data_text :
      {st st' : List Bytes} {ts : List Token} (t : Bytes)
      → Moves st ts st'
      → Moves st (text t ∷ ts) st'
  opens :
      {st st' : List Bytes} {ts : List Token} (n : Bytes)
      → Moves (n ∷ st) ts st'
      → Moves st (open_tag n ∷ ts) st'
  opens_with :
      {st st' : List Bytes} {ts : List Token} (n a : Bytes)
      → Moves (n ∷ st) ts st'
      → Moves st (open_with n a ∷ ts) st'
  opens_coded :
      {st st' : List Bytes} {ts : List Token} (v : Bytes)
      → Moves (codes "X:coded" ∷ st) ts st'
      → Moves st (coded_tag v ∷ ts) st'
  closes :
      {st st' : List Bytes} {ts : List Token} (n : Bytes)
      → Moves st ts st'
      → Moves (n ∷ st) (close_tag n ∷ ts) st'

pub Moves-append :
    {st st' st'' : List Bytes} {ts us : List Token}
    → Moves st ts st'
    → Moves st' us st''
    → Moves st (ts ++ us) st''
Moves-append no_token k = k
Moves-append (starts args m) k = starts args (Moves-append m k)
Moves-append (empty n m) k = empty n (Moves-append m k)
Moves-append (remark c m) k = remark c (Moves-append m k)
Moves-append (data_text t m) k = data_text t (Moves-append m k)
Moves-append (opens n m) k = opens n (Moves-append m k)
Moves-append (opens_with n a m) k = opens_with n a (Moves-append m k)
Moves-append (opens_coded v m) k = opens_coded v (Moves-append m k)
Moves-append (closes n m) k = closes n (Moves-append m k)

-- Every piece belongs to a call of `output`.
pub data Started : List Token → Type 0 where
  no_call : Started []
  first_call : {args : Bool} {ts : List Token} → Started (call args ∷ ts)

Started-append : {ts us : List Token} → Started ts → Started us → Started (ts ++ us)
Started-append no_call k = k
Started-append first_call k = first_call

-- A call whose behaviour is defined, whose output moves between the open tags, and whose result has
-- the property.
pub record Goes {ℓ} {A : Type ℓ} (st st' : List Bytes) (Q : A → Type 0) (o : Ran A) : Type ℓ where
  pub written : List Token
  pub value : A
  pub is_run : o ≡ some (written, value)
  pub started : Started written
  pub moves : Moves st written st'
  pub holds : Q value

abbrev pub Anything {ℓ} : {A : Type ℓ} → A → Type 0
Anything _ = Unit

abbrev pub HasString : Option Bytes → Type 0
HasString o = (s : Bytes) × (o ≡ some s)

-- The result of a search that is in order: an entry with the property, or NULL.
abbrev pub OrNull {ℓ} : {A : Type ℓ} → (A → Type 0) → Found A → Type 0
OrNull P (hit a) = P a
OrNull P miss = Unit
OrNull P fault = ⊥
OrNull P unfinished = ⊥

abbrev pub IfSome {ℓ} : {A : Type ℓ} → (A → Type 0) → Option A → Type 0
IfSome P none = Unit
IfSome P (some a) = P a

module _ {st : List Bytes} where
  pub output-Goes :
      {st' : List Bytes} {ts : List Token} → Moves st ts st' → Goes st st' Anything (output ts)
  output-Goes m = record {
    written = _;
    value = tt;
    is_run = refl;
    started = first_call;
    moves = starts true m;
    holds = tt;
  }

  pub output_plain-Goes :
      {st' : List Bytes} {ts : List Token}
      → Moves st ts st'
      → Goes st st' Anything (output_plain ts)
  output_plain-Goes m = record {
    written = _;
    value = tt;
    is_run = refl;
    started = first_call;
    moves = starts false m;
    holds = tt;
  }

  pub returns-Goes {ℓ} : {A : Type ℓ} {Q : A → Type 0} (a : A) → Q a → Goes st st Q (returns a)
  returns-Goes a h = record {
    written = [];
    value = a;
    is_run = refl;
    started = no_call;
    moves = no_token;
    holds = h;
  }

  pub string-Goes : {o : Option Bytes} → HasString o → Goes st st Anything (string o)
  string-Goes (s, e) = rw e (returns-Goes s tt)

  pub search-Goes {ℓ} :
      {A : Type ℓ} {P : A → Type 0} (r : Found A) → OrNull P r → Goes st st (IfSome P) (search r)
  search-Goes (hit a) h = returns-Goes (some a) h
  search-Goes miss h = returns-Goes none tt
  search-Goes fault h = absurd h
  search-Goes unfinished h = absurd h

  pub and_then-Goes {ℓ κ} :
      {A : Type ℓ} {B : Type κ} {st' st'' : List Bytes} {Q : A → Type 0} {R : B → Type 0}
      {o : Ran A} {f : A → Ran B}
      → Goes st st' Q o
      → ((a : A) → Q a → Goes st' st'' R (f a))
      → Goes st st'' R (and_then o f)
  unfolding and_then
  and_then-Goes {f = f} g k =
      let l = k g.value g.holds in
      record {
        written = g.written ++ l.written;
        value = l.value;
        is_run = ap (λ o. and_then o f) g.is_run ∙ ap (behind g.written) l.is_run;
        started = Started-append g.started l.started;
        moves = Moves-append g.moves l.moves;
        holds = l.holds;
      }

  -- Output that is written first.
  pub behind-Goes {ℓ} :
      {A : Type ℓ} {st' st'' : List Bytes} {R : A → Type 0} {ts : List Token} {o : Ran A}
      → Started ts
      → Moves st ts st'
      → Goes st' st'' R o
      → Goes st st'' R (behind ts o)
  behind-Goes {ts = ts} h m g = record {
    written = ts ++ g.written;
    value = g.value;
    is_run = ap (behind ts) g.is_run;
    started = Started-append h g.started;
    moves = Moves-append m g.moves;
    holds = g.holds;
  }

  pub if-Goes {ℓ} :
      {A : Type ℓ} {st' : List Bytes} {Q : A → Type 0} {o o' : Ran A} (b : Bool)
      → Goes st st' Q o
      → Goes st st' Q o'
      → Goes st st' Q (if b then o else o')
  if-Goes true g g' = g
  if-Goes false g g' = g'
