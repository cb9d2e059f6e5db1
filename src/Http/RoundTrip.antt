-- ===== src/Http/RoundTrip.antt =====
-- `parse` of include/HTTPRequestParser.h on a whole request.
use lapp_s.Common.{
  ℕ, ◌+◌, ◌-◌, ◌≤◌, ◌<◌, false, List, [], ◌∷◌, ◌++◌, ◌≡◌, ◌≢◌, refl, arith, ap, ◌∙◌, byte_at,
  length, length-append, drop, drop-append_at, append_assoc, ltb, Bool-cases, inl, inr, some, Dict,
  strings, emplace,
}
use lapp_s.Http.{
  clear, HttpRequestParser, collect, collect_headers, parse, parse_request, accepted, with_headers,
  is_blank, in_key, in_target, in_version, trailing,
}
use lapp_s.Http.Collect.{All, collect-run}
use lapp_s.Http.Request.{Header, lines, WellFormed, NonEmpty, collected, collect_headers-lines}

abbrev pub get_request : List ℕ → List ℕ → List Header → List ℕ
get_request target version hs =
    b'G' ∷ b'E' ∷ b'T' ∷ b' ' ∷ (target ++ (b' ' ∷ (version ++ (13 ∷ 10 ∷ lines hs))))

version_begins :
    (version rest : List ℕ)
    → All in_version version
    → (c : ℕ) × (cs : List ℕ) × (version ++ (13 ∷ rest) ≡ c ∷ cs) × (is_blank c ≡ false)
version_begins [] rest all = (13, rest, refl, refl)
version_begins (c ∷ cs) rest (ok, all) = (c, cs ++ (13 ∷ rest), refl, ground arith)

header_begins :
    (key rest : List ℕ)
    → NonEmpty key
    → All in_key key
    → byte_at key 0 ≢ b'\t'
    → (c : ℕ) × (cs : List ℕ) × (key ++ rest ≡ c ∷ cs) × (trailing c ≡ false)
header_begins [] rest some_left all tab = absurd (omega arith)
header_begins (c ∷ cs) rest some_left (ok, all) tab = (c, cs ++ rest, refl, ground arith)

pub length-lines : (hs : List Header) → length hs < length (lines hs)
length-lines [] = omega arith
length-lines ((key, value) ∷ hs) = omega (
  arith,
  length-append key (b':' ∷ b' ' ∷ (value ++ (13 ∷ 10 ∷ lines hs))),
  length-append value (13 ∷ 10 ∷ lines hs),
  length-lines hs,
)

with_headers-filled :
    (p : HttpRequestParser) (e : Header) (d : Dict (List ℕ) (List ℕ)) (hs : List Header)
    → with_headers p (some (collected (e ∷ d) hs))
      ≡ accepted (record p { headers = collected (e ∷ d) hs })
unfolding emplace
with_headers-filled p e d [] = refl
with_headers-filled p e d ((key, value) ∷ hs) = elim (Bool-cases (strings.same key e.0)) [
  | inl known ↦ rw known (with_headers-filled p e d hs)
  | inr fresh ↦ rw fresh (with_headers-filled p e (emplace strings key value d) hs)
]

module _ (target version : List ℕ) (h : Header) (hs : List Header) (junk : List ℕ)
    (targeted : All in_target target) (versioned : All in_version version)
    (wf : WellFormed (h ∷ hs)) (no_tab : byte_at h.0 0 ≢ b'\t') where
  abbrev request_text : List ℕ
  request_text = get_request target version (h ∷ hs)

  abbrev rest : List ℕ
  rest = lines (h ∷ hs)

  length-request_text :
      length request_text ≡ 4 + length target + 1 + length version + 2 + length rest
  length-request_text = omega (
    arith,
    length-append target (b' ' ∷ (version ++ (13 ∷ 10 ∷ rest))),
    length-append version (13 ∷ 10 ∷ rest),
  )

  module _ (buffer : List ℕ) (whole : buffer ≡ request_text ++ junk) where
    abbrev size : ℕ
    size = length request_text

    i1 : ℕ
    i1 = 4 + length target

    i3 : ℕ
    i3 = i1 + 1 + length version

    at0 : drop 4 buffer ≡ target ++ (b' ' ∷ (version ++ (13 ∷ 10 ∷ (rest ++ junk))))
    at0 =
        ap (drop 4) whole
        ∙ (append_assoc target (b' ' ∷ (version ++ (13 ∷ 10 ∷ rest))) junk
            ∙ ap (λ t. target ++ (b' ' ∷ t)) (append_assoc version (13 ∷ 10 ∷ rest) junk))

    at1 : drop i1 buffer ≡ b' ' ∷ (version ++ (13 ∷ 10 ∷ (rest ++ junk)))
    unfolding i1
    at1 = drop-append_at buffer 4 target _ at0

    at2 : drop (i1 + 1) buffer ≡ version ++ (13 ∷ 10 ∷ (rest ++ junk))
    at2 = drop-append_at buffer i1 (b' ' ∷ []) _ at1

    at3 : drop i3 buffer ≡ 13 ∷ 10 ∷ (rest ++ junk)
    unfolding i3
    at3 = drop-append_at buffer (i1 + 1) version _ at2

    at4 : drop (i3 + 2) buffer ≡ rest ++ junk
    at4 = drop-append_at buffer i3 (13 ∷ 10 ∷ []) _ at3

    target_read : collect in_target buffer (size - 4) 4 ≡ (target, i1)
    unfolding i1
    target_read =
        collect-run in_target buffer target b' ' _ (size - 4) 4 targeted refl
          (omega (arith, length-request_text)) at0

    blank_read : (collect is_blank buffer (size - i1) i1).1 ≡ i1 + 1
    unfolding i1
    blank_read =
        let (c, cs, e, other) = version_begins version (10 ∷ (rest ++ junk)) versioned in
        ap (λ r. r.1)
          (collect-run is_blank buffer (b' ' ∷ []) c cs (size - i1) i1 (refl, tt) other
            (omega (arith, length-request_text)) (at1 ∙ ap (λ t. b' ' ∷ t) e))

    version_read : collect in_version buffer (size - (i1 + 1)) (i1 + 1) ≡ (version, i3)
    unfolding i1 i3
    version_read =
        collect-run in_version buffer version 13 _ (size - (i1 + 1)) (i1 + 1) versioned refl
          (omega (arith, length-request_text)) at2

    trailing_read : (collect trailing buffer (size - i3) i3).1 ≡ i3 + 2
    unfolding i1 i3
    trailing_read =
        let (c, cs, e, other) =
          header_begins h.0 (b':' ∷ b' ' ∷ (h.1 ++ (13 ∷ 10 ∷ lines hs))) wf.0.0 wf.0.1 no_tab in
        ap (λ r. r.1)
          (collect-run trailing buffer (13 ∷ 10 ∷ []) c (cs ++ junk) (size - i3) i3
            (refl, (refl, tt)) other (omega (arith, length-request_text, length-lines (h ∷ hs)))
            (at3 ∙ ap (λ t. 13 ∷ 10 ∷ (t ++ junk)) e))

    headers_read :
        collect_headers (size - (i3 + 2)) buffer size (i3 + 2) [] ≡ some (collected [] (h ∷ hs))
    unfolding i1 i3
    headers_read =
        collect_headers-lines buffer size junk (size - (i3 + 2)) (i3 + 2) h hs [] wf
          (omega (arith, length-request_text, length-lines (h ∷ hs))) at4
          (omega (arith, length-request_text))

    request_read :
        (p : HttpRequestParser)
        → p.request_target ≡ []
        → p.http_version ≡ []
        → p.headers ≡ []
        → parse_request buffer size p
          ≡ accepted (record p {
            request_target = target;
            http_version = version;
            headers = collected [] (h ∷ hs);
          })
    unfolding parse_request emplace
    request_read p no_target no_version no_headers =
        rw
          (
            target_read, blank_read, version_read, trailing_read, no_target, no_version, no_headers,
            headers_read,
          )
          (with_headers-filled (record p { request_target = target; http_version = version }) h []
            hs)

-- A GET request with a target and a version without blanks and with one header at least, all of
-- them well formed and the first not beginning with a tab, is accepted after `clear` from a
-- buffer of the least size or more, whatever stands behind it there; and the parser then holds
-- the target, the version and all headers, the first of two with one key.
pub parse-get_request :
    (target version : List ℕ) (h : Header) (hs : List Header) (junk : List ℕ)
    (p : HttpRequestParser)
    → All in_target target
    → All in_version version
    → WellFormed (h ∷ hs)
    → byte_at h.0 0 ≢ b'\t'
    → 168 ≤ length (get_request target version (h ∷ hs) ++ junk)
    → parse
        (get_request target version (h ∷ hs) ++ junk)
        (length (get_request target version (h ∷ hs)))
        (clear p)
      ≡ accepted (record (clear p) {
        request_target = target;
        http_version = version;
        headers = collected [] (h ∷ hs);
      })
unfolding parse clear
parse-get_request target version h hs junk p targeted versioned wf no_tab enough =
    let buffer = get_request target version (h ∷ hs) ++ junk in
    rw (not_small (length buffer) enough) (
      request_read target version h hs junk targeted versioned wf no_tab buffer refl (clear p) refl
        refl refl)
  where
    not_small : (n : ℕ) → 168 ≤ n → ltb n 168 ≡ false
    not_small n h = ground arith
