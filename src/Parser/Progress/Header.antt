-- ===== src/Parser/Progress/Header.antt =====
-- How far the operations of include/WSStreamParser.h move the cursor.
use lapp_s.Common.{ℕ, ◌+◌, ◌<◌, List, ◌≡◌, ◌≢◌, arith, ltb, ◌==◌, byte_at, Bool-cases, inl, inr}
use native.Mathlib.Nat.{le_refl}
use lapp_s.Protocol.{State, Directive, Result, FrameHeader}
use lapp_s.Parser.{
  Parser, get_header_1st_byte, read_size, validate_header, size_short_0, size_short_1, size_long_0,
  size_long_1, size_long_2, size_long_3, size_long_4, size_long_5, size_long_6, size_long_7,
  size_at, size_byte, store_large,
}
use lapp_s.Parser.Progress.{Forward}

pub get_header_1st_byte-moves :
    (s : List ℕ) (limit i : ℕ) (p : Parser)
    → (get_header_1st_byte s limit i p).1.directive ≡ Directive.continue
    → (i < limit) × ((get_header_1st_byte s limit i p).0.cursor ≡ i + 1)
unfolding get_header_1st_byte
get_header_1st_byte-moves s limit i p h = (ground arith, ground arith)

pub get_header_1st_byte-quiet :
    (s : List ℕ) (limit i : ℕ) (p : Parser)
    → (get_header_1st_byte s limit i p).1.directive ≢ Directive.take_ready_message
unfolding get_header_1st_byte
get_header_1st_byte-quiet s limit i p h = ground arith

pub validate_header-Forward : (p : Parser) → Forward p (validate_header p)
unfolding validate_header
validate_header-Forward p = (λ h. ground arith, λ h. ground arith)

module _ (s : List ℕ) (limit : ℕ) where
  size_byte-Forward :
      (store : FrameHeader → ℕ → FrameHeader) (next : State) (rest : Parser → Parser × Result)
      → ((q : Parser) → Forward q (rest q))
      → (p : Parser) → Forward p (size_byte s limit store next p rest)
  size_byte-Forward store next rest ahead p =
      let q = record p {
        header = store p.header (byte_at s p.cursor);
        state = next;
        cursor = p.cursor + 1;
      } in
      elim (Bool-cases (p.cursor + 1 == limit)) [
        | inl stop ↦ rw stop ((λ h. absurd (ground arith), λ h. absurd (ground arith)))
        | inr on ↦ rw on (λ h. omega (arith, (ahead q).0 h), (ahead q).1)
      ]

  long_7 : (p : Parser) → Forward p (size_long_7 s limit p)
  unfolding size_long_7
  long_7 p = (λ h. ground arith, λ h. ground arith)

  long_6 : (p : Parser) → Forward p (size_long_6 s limit p)
  unfolding size_long_6
  long_6 =
      size_byte-Forward (store_large (λ e b. record e { b6 = b })) State.read_long_size_7
        (size_long_7 s limit) long_7

  long_5 : (p : Parser) → Forward p (size_long_5 s limit p)
  unfolding size_long_5
  long_5 =
      size_byte-Forward (store_large (λ e b. record e { b5 = b })) State.read_long_size_6
        (size_long_6 s limit) long_6

  long_4 : (p : Parser) → Forward p (size_long_4 s limit p)
  unfolding size_long_4
  long_4 =
      size_byte-Forward (store_large (λ e b. record e { b4 = b })) State.read_long_size_5
        (size_long_5 s limit) long_5

  long_3 : (p : Parser) → Forward p (size_long_3 s limit p)
  unfolding size_long_3
  long_3 =
      size_byte-Forward (store_large (λ e b. record e { b3 = b })) State.read_long_size_4
        (size_long_4 s limit) long_4

  long_2 : (p : Parser) → Forward p (size_long_2 s limit p)
  unfolding size_long_2
  long_2 =
      size_byte-Forward (store_large (λ e b. record e { b2 = b })) State.read_long_size_3
        (size_long_3 s limit) long_3

  long_1 : (p : Parser) → Forward p (size_long_1 s limit p)
  unfolding size_long_1
  long_1 =
      size_byte-Forward (store_large (λ e b. record e { b1 = b })) State.read_long_size_2
        (size_long_2 s limit) long_2

  long_0 : (p : Parser) → Forward p (size_long_0 s limit p)
  unfolding size_long_0
  long_0 =
      size_byte-Forward (store_large (λ e b. record e { b0 = b })) State.read_long_size_1
        (size_long_1 s limit) long_1

  short_1 : (p : Parser) → Forward p (size_short_1 s limit p)
  unfolding size_short_1
  short_1 p = (λ h. ground arith, λ h. ground arith)

  short_0 : (p : Parser) → Forward p (size_short_0 s limit p)
  unfolding size_short_0
  short_0 p =
      let q = record p {
        header = record (p.header) {
          medium_size = record (p.header.medium_size) { b0 = byte_at s p.cursor };
        };
        state = State.read_short_size_1;
        cursor = p.cursor + 1;
      } in
      elim (Bool-cases (p.cursor + 1 == limit)) [
        | inl stop ↦ rw stop ((λ h. absurd (ground arith), λ h. absurd (ground arith)))
        | inr on ↦ rw on (λ h. omega (arith, (short_1 q).0 h), (short_1 q).1)
      ]

  size_at-Forward : (st : State) (p : Parser) → Forward p (size_at s limit st p)
  unfolding size_at
  size_at-Forward State.read_short_size_0 p = short_0 p
  size_at-Forward State.read_short_size_1 p = short_1 p
  size_at-Forward State.read_long_size_0 p = long_0 p
  size_at-Forward State.read_long_size_1 p = long_1 p
  size_at-Forward State.read_long_size_2 p = long_2 p
  size_at-Forward State.read_long_size_3 p = long_3 p
  size_at-Forward State.read_long_size_4 p = long_4 p
  size_at-Forward State.read_long_size_5 p = long_5 p
  size_at-Forward State.read_long_size_6 p = long_6 p
  size_at-Forward State.read_long_size_7 p = long_7 p
  size_at-Forward State.init p = (λ h. le_refl p.cursor, λ h. absurd (ground arith))
  size_at-Forward State.header_1st_byte p = (λ h. le_refl p.cursor, λ h. absurd (ground arith))
  size_at-Forward State.header_2nd_byte p = (λ h. le_refl p.cursor, λ h. absurd (ground arith))
  size_at-Forward State.read_mask_0 p = (λ h. le_refl p.cursor, λ h. absurd (ground arith))
  size_at-Forward State.read_mask_1 p = (λ h. le_refl p.cursor, λ h. absurd (ground arith))
  size_at-Forward State.read_mask_2 p = (λ h. le_refl p.cursor, λ h. absurd (ground arith))
  size_at-Forward State.read_mask_3 p = (λ h. le_refl p.cursor, λ h. absurd (ground arith))
  size_at-Forward State.validate p = (λ h. le_refl p.cursor, λ h. absurd (ground arith))
  size_at-Forward State.payload p = (λ h. le_refl p.cursor, λ h. absurd (ground arith))
  size_at-Forward State.done p = (λ h. le_refl p.cursor, λ h. absurd (ground arith))
  size_at-Forward State.message_ready p = (λ h. le_refl p.cursor, λ h. absurd (ground arith))

  pub read_size-Forward : (p : Parser) → Forward p (read_size s limit p.cursor p)
  unfolding read_size
  read_size-Forward p = elim (Bool-cases (ltb p.cursor limit)) [
    | inl on ↦ rw on (size_at-Forward p.state (record p { cursor = p.cursor }))
    | inr stop ↦ rw stop ((λ h. absurd (ground arith), λ h. absurd (ground arith)))
  ]
