-- ===== src/Http.antt =====
-- include/HTTPRequestParser.h: the parser of the request that opens a connection. Strings are
-- lists of bytes. `buffer` is the vector, and `size` the length that is passed with it.
pub mod Collect
pub mod Request
pub mod RoundTrip
pub mod Progress
use lapp_s.Common.{
  ℕ, zero, suc, ◌+◌, ◌-◌, Bool, true, false, not, ◌&&◌, ◌||◌, Option, some, none, List, [], ◌∷◌,
  ◌++◌, ltb, ◌==◌, if◌then◌else◌, byte_at, length, Dict, strings, emplace, lookup,
}

pub record HttpRequestParser : Type 0 where
  pub http_version : List ℕ
  pub request_target : List ℕ
  pub min_size : ℕ
  pub headers : Dict (List ℕ) (List ℕ)

-- the constructor
abbrev pub new_parser : HttpRequestParser
new_parser = record { http_version = []; request_target = []; min_size = 168; headers = [] }

unfoldable pub clear : HttpRequestParser → HttpRequestParser
clear p = record { http_version = []; request_target = []; min_size = 168; headers = [] }

-- `while((i<size)&&test(buff[i]))` with `left` for `size-i`: the bytes passed, and where it ends.
unfoldable pub collect : (ℕ → Bool) → List ℕ → ℕ → ℕ → List ℕ × ℕ
collect test buff zero i = ([], i)
collect test buff (suc left) i =
    let (passed, end) = collect test buff left (i + 1) in
    if test (byte_at buff i) then (byte_at buff i ∷ passed, end) else ([], i)

abbrev pub is_blank : ℕ → Bool
is_blank c = c == b' ' || c == b'\t'

abbrev pub is_crlf_byte : ℕ → Bool
is_crlf_byte c = c == 13 || c == 10

abbrev pub in_key : ℕ → Bool
in_key c = not (c == b' ') && not (is_crlf_byte c) && not (c == b':')

abbrev pub in_separator : ℕ → Bool
in_separator c = c == b' ' || c == b':' || c == b'\t'

abbrev pub in_line : ℕ → Bool
in_line c = not (is_crlf_byte c)

abbrev pub in_gap : ℕ → Bool
in_gap c = c == b' ' || is_crlf_byte c

-- One round of the loop of `CollectHeaders`: a header, and where the next one begins.
unfoldable pub one_header : List ℕ → ℕ → ℕ → (List ℕ × List ℕ) × ℕ
one_header buff sz index =
    let (key, i1) = collect in_key buff (sz - index) index in
    let i2 = (collect in_separator buff (sz - i1) i1).1 in
    let (value, i3) = collect in_line buff (sz - i2) i2 in
    let i4 = (collect in_gap buff (sz - i3) i3).1 in ((key, value), i4)

-- `CollectHeaders`; `none` is the model's own, for fuel run out.
unfoldable pub collect_headers :
    ℕ → List ℕ → ℕ → ℕ → Dict (List ℕ) (List ℕ) → Option (Dict (List ℕ) (List ℕ))
collect_headers zero buff sz index headers = if ltb index sz then none else some headers
collect_headers (suc f) buff sz index headers =
    let ((key, value), next) = one_header buff sz index in
    let rest = collect_headers f buff sz next (emplace strings key value headers) in
    if ltb index sz then rest else some headers

-- `parse` returns, or throws; `starved` is the model's own.
pub data Parsing : Type 0 where
  accepted : HttpRequestParser → Parsing
  malformed : Parsing
  starved : Parsing

abbrev pub with_headers : HttpRequestParser → Option (Dict (List ℕ) (List ℕ)) → Parsing
with_headers p none = starved
with_headers p (some []) = malformed
with_headers p (some (h ∷ hs)) = accepted (record p { headers = h ∷ hs })

abbrev pub in_target : ℕ → Bool
in_target c = not (is_blank c)

abbrev pub in_version : ℕ → Bool
in_version c = not (is_crlf_byte c) && not (is_blank c)

abbrev pub trailing : ℕ → Bool
trailing c = is_crlf_byte c || is_blank c

-- from `cursor=4` on: the target and the version, and where the headers begin
abbrev pub request_line : List ℕ → ℕ → HttpRequestParser → HttpRequestParser × ℕ
request_line buffer size p =
    let (target, i1) = collect in_target buffer (size - 4) 4 in
    let i2 = (collect is_blank buffer (size - i1) i1).1 in
    let (version, i3) = collect in_version buffer (size - i2) i2 in
    let i4 = (collect trailing buffer (size - i3) i3).1 in
    (
      record p {
        request_target = p.request_target ++ target;
        http_version = p.http_version ++ version;
      },
      i4,
    )

unfoldable pub parse_request : List ℕ → ℕ → HttpRequestParser → Parsing
parse_request buffer size p =
    let (q, i4) = request_line buffer size p in
    with_headers q (collect_headers (size - i4) buffer size i4 q.headers)

unfoldable pub parse : List ℕ → ℕ → HttpRequestParser → Parsing
parse buffer size p =
    let cursor = if byte_at buffer 0 == 13 && byte_at buffer 1 == 10 then 2 else 0 in
    if ltb (length buffer) p.min_size
    then malformed
    else if byte_at buffer cursor == b'G'
        && byte_at buffer (cursor + 1) == b'E'
        && byte_at buffer (cursor + 2) == b'T'
    then (if byte_at buffer (cursor + 3) == b' ' then parse_request buffer size p else malformed)
    else malformed

-- `operator[]`
unfoldable pub header : HttpRequestParser → List ℕ → List ℕ
header p key = elim (lookup strings key p.headers) [ some value ↦ value | none ↦ [] ]
