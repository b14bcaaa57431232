-- ===== src/Gilbarco/Totals/RoundTrip.antt =====
-- crates/gilbarco/src/parser.rs: the totals of all nozzles read back from their frame.
use fuel_station_controller.Base.{
  ℕ, zero, suc, ◌+◌, ◌*◌, ◌<◌, ◌≤◌, ◌≡◌, refl, sym, ap, ◌∙◌, arith, bit_and, Bool, ◌&&◌, ◌<◌, true,
  false, Option, none, some, List, [], ◌∷◌, ◌++◌, append_assoc, length, ◌==◌, All, All-append,
  if◌then◌else◌, Bool-cases, inl, inr,
}
use fuel_station_controller.Base.Bits.{all_below, agree_below}
use fuel_station_controller.Gilbarco.Lrc.{gilbarco_lrc}
use fuel_station_controller.Gilbarco.Parser.{TotalsData}
use fuel_station_controller.Gilbarco.Totals.{
  parse_totals_frame, parse_totals_response, totals_while, parse_all_totals_response,
}
use fuel_station_controller.Gilbarco.Totals.Frames.{
  Section, section_bytes, is_marked, entry, length-append, length-section_bytes, is_marked,
  parse_totals_frame-section,
}
use fuel_station_controller.Gilbarco.Totals.Checked.{
  HasPlainMarks, section-IsPlain, totals_checked-section,
}
use fuel_station_controller.Gilbarco.Totals.Sections.{
  sections, totals_body, entries, IsNoStart, plain-IsNoStart, sections-IsPlain, response-noise,
  parse_totals_frame-end,
}

-- The sections behind `pre`, and what follows them.
abbrev framed : List ℕ → List Section → List ℕ → List ℕ
framed pre ss tail = pre ++ (sections ss ++ tail)

section_first :
    (pre : List ℕ) (s : Section) (ss : List Section) (tail : List ℕ)
    → framed pre (s ∷ ss) tail ≡ pre ++ (section_bytes s ++ (sections ss ++ tail))
unfolding sections
section_first pre s ss tail =
    ap (λ zs. pre ++ zs) (append_assoc (section_bytes s) (sections ss) tail)

section_passed :
    (pre : List ℕ) (s : Section) (ss : List Section) (tail : List ℕ)
    → framed pre (s ∷ ss) tail ≡ framed (pre ++ section_bytes s) ss tail
section_passed pre s ss tail =
    section_first pre s ss tail ∙ sym (append_assoc pre (section_bytes s) (sections ss ++ tail))

abbrev or_stop : List TotalsData → Option TotalsData → List TotalsData
or_stop later o = elim o [ some t ↦ t ∷ later | none ↦ [] ]

totals_while-none :
    (count n : ℕ) (buf : List ℕ)
    → parse_totals_response buf n ≡ none
    → totals_while (suc count) n buf ≡ []
unfolding totals_while
totals_while-none count n buf e = ap (or_stop (totals_while count (n + 1) buf)) e

totals_while-some :
    (count n : ℕ) (buf : List ℕ) (t : TotalsData)
    → parse_totals_response buf n ≡ some t
    → totals_while (suc count) n buf ≡ t ∷ totals_while count (n + 1) buf
unfolding totals_while
totals_while-some count n buf t e = ap (or_stop (totals_while count (n + 1) buf)) e

if_marked :
    (m : Bool) (t : TotalsData)
    → m ≡ true
    → ◌≡◌ {A = Option TotalsData} (if m && true then some t else none) (some t)
if_marked m t e = rw e refl

if_unmarked :
    (m b : Bool) (t : TotalsData)
    → m ≡ false
    → ◌≡◌ {A = Option TotalsData} (if m && b then some t else none) none
if_unmarked m b t e = rw e refl

if_wrong :
    (m : Bool) (t : TotalsData)
    → ◌≡◌ {A = Option TotalsData} (if m && false then some t else none) none
if_wrong true t = refl
if_wrong false t = refl

module _ (noise : List ℕ) (lrc : ℕ) (rest : List ℕ) (hn : All IsNoStart noise)
    (hr : All IsNoStart rest) (hl : bit_and lrc 0xf0 ≡ 0xe0) (hs : IsNoStart lrc) where
  abbrev ending : List ℕ
  ending = 0xfb ∷ lrc ∷ 0xf0 ∷ rest

  abbrev buffer : List ℕ → List Section → List ℕ
  buffer pre ss = noise ++ (0xff ∷ framed pre ss ending)

  -- Whether the checksum of the frame is right.
  abbrev is_right : List ℕ → List Section → Bool
  is_right pre ss = gilbarco_lrc (0xff ∷ framed pre ss (0xfb ∷ [])) == lrc

  framed-IsNoStart :
      (pre : List ℕ) (ss : List Section)
      → All IsNoStart pre
      → All HasPlainMarks ss
      → All IsNoStart (framed pre ss ending)
  framed-IsNoStart pre ss hp hm = All-append IsNoStart pre (sections ss ++ ending) hp (
      All-append IsNoStart (sections ss) ending
        (plain-IsNoStart (sections ss) (sections-IsPlain ss hm)) (refl, (hs, (refl, hr))))

  response_section :
      (i : ℕ) (pre : List ℕ) (s : Section) (ss : List Section) (b : Bool)
      → All IsNoStart pre
      → 30 * i ≡ length pre
      → i < 8
      → All HasPlainMarks (s ∷ ss)
      → is_right pre (s ∷ ss) ≡ b
      → parse_totals_response (buffer pre (s ∷ ss)) (i + 1)
        ≡ (if is_marked i s && b then some (entry (i + 1) s) else none)
  response_section i pre s ss b hp e h hm hb =
      let later = sections ss in
      let checked =
        totals_checked-section (0xff ∷ pre) (section_bytes s) later lrc rest
          (length-section_bytes s) (sections-IsPlain ss hm.1) hl
        ∙ (sym (ap (λ zs. gilbarco_lrc (0xff ∷ zs) == lrc) (section_first pre s ss (0xfb ∷ [])))
            ∙ hb) in
      response-noise noise (framed pre (s ∷ ss) ending) i hn (framed-IsNoStart pre (s ∷ ss) hp hm)
      ∙ (ap (λ zs. parse_totals_frame (0xff ∷ zs) (i + 1)) (section_first pre s ss ending)
          ∙ parse_totals_frame-section (0xff ∷ pre) (later ++ ending) i s b (omega arith)
              (omega arith) checked)

  response_end :
      (i : ℕ) (pre : List ℕ)
      → All IsNoStart pre
      → 30 * i ≡ length pre
      → parse_totals_response (buffer pre []) (i + 1) ≡ none
  unfolding sections
  response_end i pre hp e =
      response-noise noise (framed pre [] ending) i hn (framed-IsNoStart pre [] hp tt)
      ∙ parse_totals_frame-end (0xff ∷ pre) (lrc ∷ 0xf0 ∷ rest) i (omega arith)

  -- With the right checksum the sections are read up to the first that has a wrong marker.
  totals_while-right :
      (count i : ℕ) (pre : List ℕ) (ss : List Section)
      → i + count ≡ 8
      → i + length ss ≤ 8
      → All IsNoStart pre
      → 30 * i ≡ length pre
      → All HasPlainMarks ss
      → is_right pre ss ≡ true
      → totals_while count (i + 1) (buffer pre ss) ≡ entries i ss
  unfolding totals_while entries
  totals_while-right zero i pre [] hc h hp e hm hb = refl
  totals_while-right zero i pre (s ∷ ss) hc h hp e hm hb = absurd (omega arith)
  totals_while-right (suc count) i pre [] hc h hp e hm hb =
      totals_while-none count (i + 1) (buffer pre []) (response_end i pre hp e)
  totals_while-right (suc count) i pre (s ∷ ss) hc h hp e hm hb =
      let passed = pre ++ section_bytes s in
      let plain = plain-IsNoStart (section_bytes s) (section-IsPlain s hm.0) in
      let right =
        sym (ap (λ zs. gilbarco_lrc (0xff ∷ zs) == lrc) (section_passed pre s ss (0xfb ∷ [])))
        ∙ hb in
      let later =
        ap (λ zs. totals_while count (i + 1 + 1) (noise ++ (0xff ∷ zs)))
          (section_passed pre s ss ending)
        ∙ totals_while-right count (i + 1) passed ss (omega arith) (omega arith)
            (All-append IsNoStart pre (section_bytes s) hp plain)
            (omega (arith, length-append pre (section_bytes s), length-section_bytes s)) hm.1
            right in
      let read = response_section i pre s ss true hp e (omega arith) hm hb in
      elim (Bool-cases (is_marked i s)) [
        | inl k ↦
            totals_while-some count (i + 1) (buffer pre (s ∷ ss)) (entry (i + 1) s)
              (read ∙ if_marked (is_marked i s) (entry (i + 1) s) k)
            ∙ (ap (λ es. entry (i + 1) s ∷ es) later ∙ rw k refl)
        | inr k ↦
            totals_while-none count (i + 1) (buffer pre (s ∷ ss))
              (read ∙ if_unmarked (is_marked i s) true (entry (i + 1) s) k)
            ∙ rw k refl
      ]

  -- With a wrong checksum the first section is refused.
  totals_while-wrong :
      (count : ℕ) (ss : List Section)
      → All HasPlainMarks ss
      → is_right [] ss ≡ false
      → totals_while (suc count) 1 (buffer [] ss) ≡ []
  totals_while-wrong count [] hm hb =
      totals_while-none count 1 (buffer [] []) (response_end 0 [] tt refl)
  totals_while-wrong count (s ∷ ss) hm hb = totals_while-none count 1 (buffer [] (s ∷ ss)) (
      response_section 0 [] s ss false tt refl (omega arith) hm hb
      ∙ if_wrong (is_marked 0 s) (entry 1 s))

  parse-buffer :
      (ss : List Section)
      → length ss ≤ 8
      → All HasPlainMarks ss
      → parse_all_totals_response (buffer [] ss) ≡ (if is_right [] ss then entries 0 ss else [])
  unfolding parse_all_totals_response
  parse-buffer ss h hm = elim (Bool-cases (is_right [] ss)) [
    | inl e ↦ rw e (totals_while-right 8 0 [] ss refl (omega arith) tt refl hm e)
    | inr e ↦ rw e (totals_while-wrong 7 ss hm e)
  ]

checksum_table : all_below 16 (λ d. bit_and (0xe0 + d) 0xf0 == 0xe0) ≡ true
unfolding all_below
checksum_table = refl

-- A buffer holds a frame of at most eight sections, with a checksum byte from 0xE0 to 0xEF, no other
-- 0xFF byte before or behind it, and no 0xFB or 0xFF byte among the markers of the sections, which may
-- be wrong. When the checksum is right, exactly the sections before the first that has a wrong marker
-- are read, for the nozzles from 1 on, with the last eight digits of their volume and amount and the
-- last four of their price; when the checksum is wrong, none is.
pub parse_all_totals_response-totals_body :
    (noise : List ℕ) (ss : List Section) (d : ℕ) (rest : List ℕ)
    → All IsNoStart noise
    → All IsNoStart rest
    → All HasPlainMarks ss
    → length ss ≤ 8
    → d < 16
    → parse_all_totals_response (noise ++ (totals_body ss ++ ((0xe0 + d) ∷ 0xf0 ∷ rest)))
      ≡ (if gilbarco_lrc (totals_body ss) == 0xe0 + d then entries 0 ss else [])
parse_all_totals_response-totals_body noise ss d rest hn hr hm h hd =
    let lrc = 0xe0 + d in
    let high = agree_below 16 (λ x. bit_and (0xe0 + x) 0xf0) (λ x. 0xe0) checksum_table d hd in
    ap (λ zs. parse_all_totals_response (noise ++ (0xff ∷ zs)))
      (append_assoc (sections ss) (0xfb ∷ []) (lrc ∷ 0xf0 ∷ rest))
    ∙ parse-buffer noise lrc rest hn hr high (ground arith) ss h hm
