-- ===== src/ClientHandshake/Lines.antt =====
-- Header lines put together, as include/Shakespeer.h does, and what is found in them.
use lapp_s.Common.{
  ℕ, ◌≤◌, Bool, true, false, List, [], ◌∷◌, ◌++◌, ◌≡◌, refl, arith, ap, ◌∙◌, length, length-append,
  if◌then◌else◌, append_assoc, Bool-cases, inl, inr, Option, some, none, Dict, strings, emplace,
  lookup, lookup-emplace, first_of,
}
use lapp_s.Http.{in_line}
use lapp_s.Http.Collect.{All}
use lapp_s.Http.Request.{Header, lines, WellFormed, NonEmpty, Trimmed, collected}
use lapp_s.Handshake.{extra_lines, protocol_line, accept_key, protocol_name}
use lapp_s.ClientHandshake.{is_empty_map}
use lapp_s.ClientHandshake.Response.{Filled}

-- What a key finds among the headers collected: the first of its name.
pub lookup-collected :
    (k : List ℕ) (d : Dict (List ℕ) (List ℕ)) (hs : List Header)
    → lookup strings k (collected d hs) ≡ first_of (lookup strings k d) (lookup strings k hs)
unfolding lookup
lookup-collected k d [] = kept_none (lookup strings k d)
  where
    kept_none : (o : Option (List ℕ)) → o ≡ first_of o none
    kept_none none = refl
    kept_none (some v) = refl
lookup-collected k d ((key, value) ∷ hs) =
    lookup-collected k (emplace strings key value d) hs
    ∙ rw (lookup-emplace strings k key value d) (joined (lookup strings k d) (strings.same k key))
  where
    joined :
        (o : Option (List ℕ)) (b : Bool)
        → first_of (first_of o (if b then some value else none)) (lookup strings k hs)
          ≡ first_of o (if b then some value else lookup strings k hs)
    joined none true = refl
    joined none false = refl
    joined (some v) b = refl

pub lookup-append :
    (k : List ℕ) (d e : Dict (List ℕ) (List ℕ))
    → lookup strings k (d ++ e) ≡ first_of (lookup strings k d) (lookup strings k e)
unfolding lookup
lookup-append k [] e = refl
lookup-append k ((j, v) ∷ d) e = elim (Bool-cases (strings.same k j)) [
  | inl here ↦ rw here refl
  | inr there ↦ rw there (lookup-append k d e)
]

pub extra_lines-lines : (hs more : List Header) → extra_lines hs ++ lines more ≡ lines (hs ++ more)
extra_lines-lines [] more = refl
extra_lines-lines ((key, value) ∷ hs) more =
    append_assoc key (b':' ∷ b' ' ∷ (value ++ (13 ∷ 10 ∷ extra_lines hs))) (lines more)
    ∙ ap (λ t. key ++ (b':' ∷ b' ' ∷ t))
        (append_assoc value (13 ∷ 10 ∷ extra_lines hs) (lines more)
          ∙ ap (λ t. value ++ (13 ∷ 10 ∷ t)) (extra_lines-lines hs more))

-- The lines of `hs`, and what follows them.
abbrev pub lines_of : List Header → List ℕ → List ℕ
lines_of [] rest = rest
lines_of ((key, value) ∷ hs) rest = key ++ (b':' ∷ b' ' ∷ (value ++ (13 ∷ 10 ∷ lines_of hs rest)))

-- A value that stands in a header line as it is.
abbrev pub Token : List ℕ → Type 0
Token value = NonEmpty value × All in_line value × Trimmed value

-- The same of a list of headers.
abbrev pub Extra : List Header → Type 0
Extra hs = WellFormed hs × Filled hs × (lookup strings accept_key hs ≡ none)

abbrev pub protocol_header : Option (List ℕ) → List Header
protocol_header none = []
protocol_header (some alias) =
    (
      b'S' ∷ b'e' ∷ b'c' ∷ b'-' ∷ b'W' ∷ b'e' ∷ b'b' ∷ b'S' ∷ b'o' ∷ b'c' ∷ b'k' ∷ b'e' ∷ b't'
          ∷ b'-' ∷ b'P' ∷ b'r' ∷ b'o' ∷ b't' ∷ b'o' ∷ b'c' ∷ b'o' ∷ b'l' ∷ [],
      alias,
    )
    ∷ []

pub protocol_line-lines :
    (allowed : List ℕ) (o : Option (List ℕ)) (more : List Header)
    → protocol_line allowed o ++ lines more ≡ lines (protocol_header o ++ more)
protocol_line-lines allowed none more = refl
protocol_line-lines allowed (some alias) more =
    ap (λ t. protocol_name ++ t) (append_assoc alias (13 ∷ 10 ∷ []) (lines more))

pub WellFormed-append :
    (hs more : List Header) → WellFormed hs → WellFormed more → WellFormed (hs ++ more)
WellFormed-append [] more wf wf' = wf'
WellFormed-append (h ∷ hs) more (ok, wf) wf' = (ok, WellFormed-append hs more wf wf')

pub Filled-append : (hs more : List Header) → Filled hs → Filled more → Filled (hs ++ more)
Filled-append [] more fl fl' = fl'
Filled-append (h ∷ hs) more (ok, fl) fl' = (ok, Filled-append hs more fl fl')

pub length-lines_append :
    (hs more : List Header) → length (lines more) ≤ length (lines (hs ++ more))
length-lines_append [] more = omega arith
length-lines_append ((key, value) ∷ hs) more = omega (
  arith,
  length-append key (b':' ∷ b' ' ∷ (value ++ (13 ∷ 10 ∷ lines (hs ++ more)))),
  length-append value (13 ∷ 10 ∷ lines (hs ++ more)),
  length-lines_append hs more,
)

pub collected-filled :
    (e : Header) (d : Dict (List ℕ) (List ℕ)) (hs : List Header)
    → is_empty_map (collected (e ∷ d) hs) ≡ false
unfolding emplace
collected-filled e d [] = refl
collected-filled e d ((key, value) ∷ hs) = elim (Bool-cases (strings.same key e.0)) [
  | inl known ↦ rw known (collected-filled e d hs)
  | inr fresh ↦ rw fresh (collected-filled e (emplace strings key value d) hs)
]

pub append_nil : (xs : List ℕ) → xs ≡ xs ++ []
append_nil [] = refl
append_nil (x ∷ xs) = ap (λ t. x ∷ t) (append_nil xs)
