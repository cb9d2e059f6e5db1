-- ===== src/ServerMessage/Fragments.antt =====
-- `FragmentedServerMessage` of include/WSServerMessage.h: what the frames carry.
use lapp_s.Common.{
  ℕ, zero, suc, ◌-◌, ◌*◌, ◌/◌, ◌%◌, ◌≤◌, ◌<◌, ◌^◌, List, [], ◌∷◌, ◌++◌, map, ◌≡◌, refl, ap, ap₂,
  ◌∙◌, arith, length, take, drop, take-append-drop, slice-append, length-take, length-drop,
  take-all, append_assoc, ◌⊎◌, inl, inr, Bool-cases, ltb, ltb→lt, lt→ltb,
}
use lapp_s.ServerMessage.{
  frame, continuations, many_fragments, fragmented_server_message, server_message,
}

abbrev pub concat : List (List ℕ) → List ℕ
concat [] = []
concat (c ∷ cs) = c ++ concat cs

abbrev pub AllSized : ℕ → List (List ℕ) → Type 0
AllSized n [] = Unit
AllSized n (c ∷ cs) = (length c ≡ n) × AllSized n cs

-- The payloads that the loop cuts off, and what it leaves.
record Cut (src : List ℕ) (rounds bytes_left : ℕ) : Type 0 where
  chunks : List (List ℕ)
  frames : (continuations rounds src bytes_left).0 ≡ map (frame 0) chunks
  left : (continuations rounds src bytes_left).1 ≡ bytes_left - rounds * 1392
  count : length chunks ≡ rounds
  sized : AllSized 1392 chunks
  whole :
      concat chunks ++ drop (length src - (bytes_left - rounds * 1392)) src
      ≡ drop (length src - bytes_left) src

cut :
    (src : List ℕ) (rounds bytes_left : ℕ)
    → rounds * 1392 ≤ bytes_left
    → bytes_left ≤ length src
    → Cut src rounds bytes_left
unfolding continuations
cut src zero bytes_left h k = record {
  chunks = [];
  frames = refl;
  left = omega arith;
  count = refl;
  sized = tt;
  whole = ap (λ n. drop n src) (omega arith);
}
cut src (suc rounds) bytes_left h k =
    let rest = cut src rounds (bytes_left - 1392) (omega arith) (omega arith) in
    let at = length src - bytes_left in
    let here = take 1392 (drop at src) in
    record {
      chunks = here ∷ rest.chunks;
      frames = ap (λ t. frame 0 here ∷ t) rest.frames;
      left = rest.left ∙ omega arith;
      count = ap suc rest.count;
      sized = (omega (arith, length-take 1392 (drop at src), length-drop at src), rest.sized);
      whole =
          append_assoc here (concat rest.chunks)
            (drop (length src - (bytes_left - suc rounds * 1392)) src)
          ∙ ap (λ t. here ++ t)
              (ap (λ n. concat rest.chunks ++ drop n src) (omega arith)
                ∙ (rest.whole ∙ ap (λ n. drop n src) (omega arith)))
          ∙ slice-append at 1392 src;
    }

-- How a message is cut up: a first frame with the opcode and no FIN bit, continuation frames, and
-- a continuation frame with the FIN bit.
pub record IsFragmented (oc : ℕ) (src : List ℕ) (out : List (List ℕ)) : Type 0 where
  pub first : List ℕ
  pub middle : List (List ℕ)
  pub last : List ℕ
  pub frames : out ≡ frame oc first ∷ (map (frame 0) middle ++ (frame 128 last ∷ []))
  pub whole : first ++ (concat middle ++ last) ≡ src
  pub first_sized : length first ≡ 1392
  pub middle_sized : AllSized 1392 middle
  pub last_sized : (1392 ≤ length last) × (length last < 2784)

many_fragments-IsFragmented :
    (oc : ℕ) (src : List ℕ)
    → 1 < length src / 1392
    → IsFragmented oc src (many_fragments (length src / 1392) oc src)
unfolding many_fragments
many_fragments-IsFragmented oc src h =
    let n = length src / 1392 in
    let c = cut src (n - 1 - 1) (length src - 1392) (omega arith) (omega arith) in
    let left : (continuations (n - 1 - 1) src (length src - 1392)).1 ≡ length src - 1392 * (n - 1) =
      c.left ∙ omega arith in
    let at : length src - (length src - 1392 * (n - 1)) ≡ 1392 * (n - 1) = omega arith in
    let start : length src - (length src - 1392) ≡ 1392 = omega arith in
    let rest = drop (length src - (length src - 1392 * (n - 1))) src in
    let rest_length : length rest ≡ length src - 1392 * (n - 1) =
      length-drop (length src - (length src - 1392 * (n - 1))) src ∙ omega arith in
    record {
      first = take 1392 src;
      middle = c.chunks;
      last = rest;
      frames =
          ap₂ (λ m l. frame oc (take 1392 src) ∷ (m ++ (frame 128 l ∷ []))) c.frames
            (rw left (take-all (length src - 1392 * (n - 1)) rest (omega (arith, rest_length))));
      whole =
          ap (λ t. take 1392 src ++ t)
            (ap (λ k. concat c.chunks ++ drop k src) (omega arith)
              ∙ (c.whole ∙ ap (λ k. drop k src) start))
          ∙ take-append-drop 1392 src;
      first_sized = omega (arith, length-take 1392 src);
      middle_sized = c.sized;
      last_sized = (omega (arith, rest_length), omega (arith, rest_length));
    }

-- A message below 2784 bytes goes out as one frame. A longer one, of fewer than 2 ^ 31 fragments,
-- is cut up as `IsFragmented` says. Both are pushed behind what the queue holds.
pub fragmented_server_message_lem :
    (out : List (List ℕ)) (oc : ℕ) (src : List ℕ)
    → length src / 1392 < 2 ^ 31
    → ((length src < 2784)
        × (fragmented_server_message out oc src ≡ out ++ (server_message oc src ∷ [])))
      ⊎ ((2784 ≤ length src)
          × (fs : List (List ℕ)) × (fragmented_server_message out oc src ≡ out ++ fs)
          × IsFragmented oc src fs)
unfolding fragmented_server_message server_message
fragmented_server_message_lem out oc src h =
    let fits : length src / 1392 % 2 ^ 32 ≡ length src / 1392 = omega arith in
    elim (Bool-cases (ltb 1 (length src / 1392))) [
      | inl more ↦ inr (
        omega (arith, ltb→lt 1 (length src / 1392) more),
        many_fragments (length src / 1392) oc src,
        rw (fits, more, lt→ltb _ _ h) refl,
        many_fragments-IsFragmented oc src (ltb→lt 1 (length src / 1392) more),
      )
      | inr one ↦ inl (ground arith, rw (fits, one) refl)
    ]
