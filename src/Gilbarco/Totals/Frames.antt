-- ===== src/Gilbarco/Totals/Frames.antt =====
-- crates/gilbarco/src/parser.rs: a whole totals frame, its sections and what is read of one.
use fuel_station_controller.Base.{
  ℕ, zero, suc, ◌+◌, ◌-◌, ◌*◌, ◌/◌, ◌%◌, ◌<◌, ◌≤◌, ◌≡◌, refl, sym, ap, ◌∙◌, arith, bit_and, bit_or,
  Bool, ◌&&◌, true, false, not, Option, none, some, List, [], ◌∷◌, ◌++◌, length, take, drop, ltb,
  ◌==◌, if◌then◌else◌, drop-append, drop-drop,
}
use native.Mathlib.Nat.{suc-add}
use fuel_station_controller.Base.Bits.{all_below, agree_below}
use fuel_station_controller.Gilbarco.Commands.{encode_4digit}
use fuel_station_controller.Gilbarco.Parser.{TotalsData, at, decode_le_bcd, decode_e_digits}
use fuel_station_controller.Gilbarco.Parser.Digits.{digit_step, digits_end, decode-encode_4digit}
use fuel_station_controller.Gilbarco.Totals.{
  section_markers, totals_checked, totals_fields, parse_totals_frame,
}

-- The totals of one nozzle with four spare digits, and the marker bytes before them.
pub record Section : Type 0 where
  pub header_mark : ℕ
  pub index_mark : ℕ
  pub volume_mark : ℕ
  pub amount_mark : ℕ
  pub price_mark : ℕ
  pub spare_mark : ℕ
  pub volume : ℕ
  pub amount : ℕ
  pub price : ℕ
  pub spare : ℕ

abbrev pub encode_8digit : ℕ → List ℕ
encode_8digit v = encode_4digit v ++ encode_4digit (v / 10000)

-- The thirty bytes of a section.
unfoldable pub section_bytes : Section → List ℕ
section_bytes s =
    s.header_mark
    ∷ s.index_mark
    ∷ s.volume_mark
    ∷ (encode_8digit s.volume
        ++ (s.amount_mark
            ∷ (encode_8digit s.amount
                ++ (s.price_mark
                    ∷ (encode_4digit s.price ++ (s.spare_mark ∷ encode_4digit s.spare))))))

-- Whether all markers are those of the section with the index `i`, from 0.
unfoldable pub is_marked : ℕ → Section → Bool
is_marked i s =
    s.header_mark == 0xf6
    && (s.index_mark == 0xe0 + i
        && (s.volume_mark == 0xf9
            && (s.amount_mark == 0xfa && (s.price_mark == 0xf4 && s.spare_mark == 0xf5))))

-- What is read of it: the nozzles count from 1.
abbrev pub entry : ℕ → Section → TotalsData
entry n s = record {
  nozzle_index = n;
  volume_total_raw = s.volume % 100000000;
  amount_total_raw = s.amount % 100000000;
  unit_price_raw = s.price % 10000;
}

pub length-section_bytes : (s : Section) → length (section_bytes s) ≡ 30
unfolding section_bytes encode_4digit
length-section_bytes s = refl

decode-encode_8digit : (v : ℕ) → decode_e_digits (encode_8digit v) ≡ some (v % 100000000)
unfolding decode_e_digits encode_4digit
decode-encode_8digit v =
    rw
      (
        digit_step, digit_step, digit_step, digit_step, digit_step, digit_step, digit_step,
        digit_step,
      )
      (digits_end 8 _ (v % 100000000) (omega arith))

at-drop : (n m : ℕ) (xs : List ℕ) → at xs (n + m) ≡ at (drop n xs) m
at-drop zero m xs = ap (at xs) (omega arith)
at-drop (suc n) m [] = refl
at-drop (suc n) m (x ∷ xs) = rw suc-add (at-drop n m xs)

pub drop_past_all : (pre ys : List ℕ) (m : ℕ) → drop (length pre + m) (pre ++ ys) ≡ drop m ys
drop_past_all pre ys m = drop-drop (length pre) m (pre ++ ys) ∙ ap (drop m) (drop-append pre ys)

pub at_past : (pre ys : List ℕ) (m : ℕ) → at (pre ++ ys) (length pre + m) ≡ at ys m
at_past pre ys m = at-drop (length pre) m (pre ++ ys) ∙ ap (λ zs. at zs m) (drop-append pre ys)

pub at_start : (pre ys : List ℕ) → at (pre ++ ys) (length pre) ≡ at ys 0
at_start pre ys = ap (at (pre ++ ys)) (omega arith) ∙ at_past pre ys 0

totals_fields_of :
    (frame : List ℕ) (start n v a p : ℕ)
    → decode_le_bcd (take 8 (drop (start + 3) frame)) ≡ some v
    → decode_le_bcd (take 8 (drop (start + 12) frame)) ≡ some a
    → decode_le_bcd (take 4 (drop (start + 21) frame)) ≡ some p
    → totals_fields frame start n
      ≡ some (record {
        nozzle_index = n;
        volume_total_raw = v;
        amount_total_raw = a;
        unit_price_raw = p;
      })
unfolding totals_fields
totals_fields_of frame start n v a p hv ha hp = rw hv (rw ha (rw hp refl))

fields_lem :
    (pre post : List ℕ) (n : ℕ) (s : Section)
    → totals_fields (pre ++ (section_bytes s ++ post)) (length pre) n ≡ some (entry n s)
unfolding section_bytes encode_4digit decode_le_bcd
fields_lem pre post n s =
    let ys = section_bytes s ++ post in
    totals_fields_of (pre ++ ys) (length pre) n (s.volume % 100000000) (s.amount % 100000000)
      (s.price % 10000)
      (ap (λ zs. decode_e_digits (take 8 zs)) (drop_past_all pre ys 3)
        ∙ decode-encode_8digit s.volume)
      (ap (λ zs. decode_e_digits (take 8 zs)) (drop_past_all pre ys 12)
        ∙ decode-encode_8digit s.amount)
      (ap (λ zs. decode_e_digits (take 4 zs)) (drop_past_all pre ys 21)
        ∙ decode-encode_4digit s.price)

index_table : all_below 16 (λ i. bit_or 0xe0 (bit_and i 0x0f) == 0xe0 + i) ≡ true
unfolding all_below
index_table = refl

index_byte : (i : ℕ) → i < 16 → 0xe0 + i ≡ bit_or 0xe0 (bit_and (i + 1 - 1) 0x0f)
index_byte i h =
    sym (agree_below 16 (λ j. bit_or 0xe0 (bit_and j 0x0f)) (λ j. 0xe0 + j) index_table i h)
    ∙ ap (λ j. bit_or 0xe0 (bit_and j 0x0f)) (omega arith)

section_markers_of :
    (frame : List ℕ) (start i : ℕ) (s : Section)
    → at frame start ≡ s.header_mark
    → at frame (start + 1) ≡ s.index_mark
    → at frame (start + 2) ≡ s.volume_mark
    → at frame (start + 11) ≡ s.amount_mark
    → at frame (start + 20) ≡ s.price_mark
    → at frame (start + 25) ≡ s.spare_mark
    → 0xe0 + i ≡ bit_or 0xe0 (bit_and (i + 1 - 1) 0x0f)
    → section_markers frame start (i + 1) ≡ is_marked i s
unfolding section_markers is_marked
section_markers_of frame start i s h0 h1 h2 h11 h20 h25 e =
    rw (sym e, h0, h1, h2, h11, h20, h25) refl

markers_lem :
    (pre post : List ℕ) (i : ℕ) (s : Section)
    → i < 16
    → section_markers (pre ++ (section_bytes s ++ post)) (length pre) (i + 1) ≡ is_marked i s
unfolding section_bytes encode_4digit
markers_lem pre post i s h =
    let ys = section_bytes s ++ post in
    section_markers_of (pre ++ ys) (length pre) i s (at_start pre ys) (at_past pre ys 1)
      (at_past pre ys 2) (at_past pre ys 11) (at_past pre ys 20) (at_past pre ys 25)
      (index_byte i h)

-- The section that starts at `start`.
abbrev pub parse_at : List ℕ → ℕ → ℕ → Option TotalsData
parse_at frame start n =
    if ltb (length frame) (start + 30)
    then none
    else if not (section_markers frame start n)
    then none
    else if not (totals_checked frame start)
    then none
    else totals_fields frame start n

pub parse_totals_frame-at :
    (frame : List ℕ) (start n : ℕ)
    → 1 + 30 * (n - 1) ≡ start
    → parse_totals_frame frame n ≡ parse_at frame start n
unfolding parse_totals_frame
parse_totals_frame-at frame start n e = ap (λ k. parse_at frame k n) e

if_checked :
    (m b : Bool) (t : TotalsData)
    → ◌≡◌ {A = Option TotalsData}
        (if not m then none else if not b then none else some t)
        (if m && b then some t else none)
if_checked true true t = refl
if_checked true false t = refl
if_checked false b t = refl

pub long_enough : (n m : ℕ) → m ≤ n → ltb n m ≡ false
long_enough n m h = ground arith

pub length-append : (xs ys : List ℕ) → length (xs ++ ys) ≡ length xs + length ys
length-append [] ys = omega arith
length-append (x ∷ xs) ys = omega (arith, length-append xs ys)

-- A section behind `pre`, in a frame whose checksum is right as `b` tells.
pub parse_totals_frame-section :
    (pre post : List ℕ) (i : ℕ) (s : Section) (b : Bool)
    → 1 + 30 * i ≡ length pre
    → i < 16
    → totals_checked (pre ++ (section_bytes s ++ post)) (length pre) ≡ b
    → parse_totals_frame (pre ++ (section_bytes s ++ post)) (i + 1)
      ≡ (if is_marked i s && b then some (entry (i + 1) s) else none)
parse_totals_frame-section pre post i s b e h hc =
    let frame = pre ++ (section_bytes s ++ post) in
    let long : length pre + 30 ≤ length frame = omega (
      arith,
      length-append pre (section_bytes s ++ post),
      length-append (section_bytes s) post,
      length-section_bytes s,
    ) in
    parse_totals_frame-at frame (length pre) (i + 1) (omega arith)
    ∙ rw
        (
          long_enough (length frame) (length pre + 30) long,
          markers_lem pre post i s h,
          hc,
          fields_lem pre post (i + 1) s,
        )
        (if_checked (is_marked i s) b (entry (i + 1) s))
