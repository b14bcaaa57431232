-- ===== src/Gilbarco/Totals/Checked.antt =====
-- crates/gilbarco/src/parser.rs: where a totals frame ends, and its checksum.
use fuel_station_controller.Base.{
  ℕ, ◌+◌, ◌/◌, ◌%◌, ◌<◌, ◌≡◌, refl, sym, ap, ◌∙◌, arith, bit_and, bit_or, Bool, true, false, Option,
  none, some, List, [], ◌∷◌, ◌++◌, append_assoc, length, take, drop, ◌==◌, All, All-append,
  drop_exact, take_exact,
}
use fuel_station_controller.Base.Bits.{all_below, agree_below}
use fuel_station_controller.Gilbarco.Lrc.{gilbarco_lrc, gilbarco_lrc_valid}
use fuel_station_controller.Gilbarco.Commands.{e_digit, encode_4digit}
use fuel_station_controller.Gilbarco.Parser.{at}
use fuel_station_controller.Gilbarco.Totals.{totals_end, find_totals_frame_end, totals_checked}
use fuel_station_controller.Gilbarco.Totals.Frames.{
  Section, section_bytes, length-append, drop_past_all, at_start, long_enough,
}

-- A byte that neither starts nor ends a frame.
abbrev pub IsPlain : ℕ → Type 0
IsPlain b = ((b == 0xfb) ≡ false) × ((b == 0xff) ≡ false)

below-IsPlain : (b : ℕ) → b < 0xfb → IsPlain b
below-IsPlain b h = (ground arith, ground arith)

digit_table : all_below 10 (λ d. bit_or 0xe0 d == 0xe0 + d) ≡ true
unfolding all_below
digit_table = refl

digit-IsPlain : (v : ℕ) → IsPlain (e_digit v)
unfolding e_digit
digit-IsPlain v =
    let e : bit_or 0xe0 (v % 10) ≡ 0xe0 + v % 10 =
      agree_below 10 (λ d. bit_or 0xe0 d) (λ d. 0xe0 + d) digit_table (v % 10) (omega arith) in
    below-IsPlain (bit_or 0xe0 (v % 10)) (omega (arith, e))

digits-IsPlain : (v : ℕ) → All IsPlain (encode_4digit v)
unfolding encode_4digit
digits-IsPlain v = (
  digit-IsPlain v,
  (digit-IsPlain (v / 10), (digit-IsPlain (v / 100), (digit-IsPlain (v / 1000), tt))),
)

eight-IsPlain :
    (v : ℕ) (bs : List ℕ)
    → All IsPlain bs
    → All IsPlain ((encode_4digit v ++ encode_4digit (v / 10000)) ++ bs)
eight-IsPlain v bs h =
    let low = encode_4digit v in
    let high = encode_4digit (v / 10000) in
    All-append IsPlain (low ++ high) bs
      (All-append IsPlain low high (digits-IsPlain v) (digits-IsPlain (v / 10000))) h

-- The markers of a section, right or wrong, neither start nor end a frame.
abbrev pub HasPlainMarks : Section → Type 0
HasPlainMarks s =
    IsPlain s.header_mark
    × (IsPlain s.index_mark
        × (IsPlain s.volume_mark
            × (IsPlain s.amount_mark × (IsPlain s.price_mark × IsPlain s.spare_mark))))

pub section-IsPlain : (s : Section) → HasPlainMarks s → All IsPlain (section_bytes s)
unfolding section_bytes
section-IsPlain s (header, (index, (volume, (amount, (price, spare))))) =
    let prices = encode_4digit s.price ++ (s.spare_mark ∷ encode_4digit s.spare) in
    let amounts =
      (encode_4digit s.amount ++ encode_4digit (s.amount / 10000)) ++ (s.price_mark ∷ prices) in
    let prices_plain =
      All-append IsPlain (encode_4digit s.price) (s.spare_mark ∷ encode_4digit s.spare)
        (digits-IsPlain s.price) (spare, digits-IsPlain s.spare) in
    let amounts_plain = eight-IsPlain s.amount (s.price_mark ∷ prices) (price, prices_plain) in
    let volumes_plain = eight-IsPlain s.volume (s.amount_mark ∷ amounts) (amount, amounts_plain) in
    (header, (index, (volume, volumes_plain)))

-- The end of a frame is the first `FB` that a checksum and `F0` follow.
totals_end-plain :
    (i : ℕ) (mid : List ℕ) (lrc : ℕ) (rest : List ℕ)
    → All IsPlain mid
    → bit_and lrc 0xf0 ≡ 0xe0
    → totals_end i (mid ++ (0xfb ∷ lrc ∷ 0xf0 ∷ rest)) ≡ some (i + length mid + 1)
unfolding totals_end
totals_end-plain i [] lrc rest h hl =
    rw (long_enough (length (0xfb ∷ lrc ∷ 0xf0 ∷ rest)) 3 (omega arith), hl) (ap some (omega arith))
totals_end-plain i (b ∷ bs) lrc rest h hl =
    let tail = 0xfb ∷ lrc ∷ 0xf0 ∷ rest in
    rw (long_enough (length (b ∷ (bs ++ tail))) 3 (omega (arith, length-append bs tail)), h.0.0)
      (totals_end-plain (i + 1) bs lrc rest h.1 hl ∙ ap some (omega arith))

abbrev checked_end : List ℕ → Option ℕ → Bool
checked_end frame o = elim o [
  | some end ↦ gilbarco_lrc_valid (take end frame) (at frame end)
  | none ↦ true
]

totals_checked_of :
    (frame : List ℕ) (start end : ℕ)
    → totals_end (start + 30) (drop (start + 30) frame) ≡ some end
    → totals_checked frame start ≡ gilbarco_lrc_valid (take end frame) (at frame end)
unfolding totals_checked find_totals_frame_end
totals_checked_of frame start end e = ap (checked_end frame) e

-- The bytes up to the checksum, and those from it on.
frame_split :
    (pre sec mid tail : List ℕ)
    → (pre ++ (sec ++ (mid ++ (0xfb ∷ [])))) ++ tail ≡ pre ++ (sec ++ (mid ++ (0xfb ∷ tail)))
frame_split pre sec mid tail =
    append_assoc pre (sec ++ (mid ++ (0xfb ∷ []))) tail
    ∙ ap (λ zs. pre ++ zs)
        (append_assoc sec (mid ++ (0xfb ∷ [])) tail
          ∙ ap (λ zs. sec ++ zs) (append_assoc mid (0xfb ∷ []) tail))

checked_split :
    (frame body tail : List ℕ) (lrc end : ℕ)
    → body ++ (lrc ∷ tail) ≡ frame
    → end ≡ length body
    → gilbarco_lrc_valid (take end frame) (at frame end) ≡ (gilbarco_lrc body == lrc)
unfolding gilbarco_lrc_valid
checked_split frame body tail lrc end e h =
    rw
      (
        sym e,
        take_exact end body (lrc ∷ tail) h,
        ap (at (body ++ (lrc ∷ tail))) h ∙ at_start body (lrc ∷ tail),
      )
      refl

-- Behind a section and plain bytes, the frame is checked against the checksum of all before it.
pub totals_checked-section :
    (pre sec mid : List ℕ) (lrc : ℕ) (rest : List ℕ)
    → length sec ≡ 30
    → All IsPlain mid
    → bit_and lrc 0xf0 ≡ 0xe0
    → totals_checked (pre ++ (sec ++ (mid ++ (0xfb ∷ lrc ∷ 0xf0 ∷ rest)))) (length pre)
      ≡ (gilbarco_lrc (pre ++ (sec ++ (mid ++ (0xfb ∷ [])))) == lrc)
totals_checked-section pre sec mid lrc rest h30 hm hl =
    let post = mid ++ (0xfb ∷ lrc ∷ 0xf0 ∷ rest) in
    let frame = pre ++ (sec ++ post) in
    let body = pre ++ (sec ++ (mid ++ (0xfb ∷ []))) in
    let end = length pre + 30 + length mid + 1 in
    let dropped = drop_past_all pre (sec ++ post) 30 ∙ drop_exact 30 sec post (sym h30) in
    let found =
      ap (totals_end (length pre + 30)) dropped
      ∙ totals_end-plain (length pre + 30) mid lrc rest hm hl in
    totals_checked_of frame (length pre) end found
    ∙ checked_split frame body (0xf0 ∷ rest) lrc end (frame_split pre sec mid (lrc ∷ 0xf0 ∷ rest)) (
        omega (
          arith,
          h30,
          length-append pre (sec ++ (mid ++ (0xfb ∷ []))),
          length-append sec (mid ++ (0xfb ∷ [])),
          length-append mid (0xfb ∷ []),
        ))
