-- ===== src/Gilbarco/Totals/Sections.antt =====
-- crates/gilbarco/src/parser.rs: the sections of a totals frame, and the buffer that holds it.
use fuel_station_controller.Base.{
  ℕ, ◌+◌, ◌*◌, ◌≡◌, refl, ap, ◌∙◌, arith, Bool, true, false, Option, none, some, List, [], ◌∷◌,
  ◌++◌, length, ltb, ◌==◌, All, All-append, if◌then◌else◌,
}
use fuel_station_controller.Gilbarco.Parser.{TotalsData, at, or_else}
use fuel_station_controller.Gilbarco.Totals.{
  section_markers, parse_totals_frame, totals_from, parse_totals_response,
}
use fuel_station_controller.Gilbarco.Totals.Frames.{
  Section, section_bytes, is_marked, entry, at_start, parse_totals_frame-at,
}
use fuel_station_controller.Gilbarco.Totals.Checked.{IsPlain, HasPlainMarks, section-IsPlain}

-- The sections of a frame.
unfoldable pub sections : List Section → List ℕ
sections [] = []
sections (s ∷ ss) = section_bytes s ++ sections ss

-- A frame up to its checksum.
abbrev pub totals_body : List Section → List ℕ
totals_body ss = 0xff ∷ (sections ss ++ (0xfb ∷ []))

-- What is read of the sections, whose indices count from `i` on: all before the first that has a wrong
-- marker.
unfoldable pub entries : ℕ → List Section → List TotalsData
entries i [] = []
entries i (s ∷ ss) =
    let later = entries (i + 1) ss in if is_marked i s then entry (i + 1) s ∷ later else []

-- A byte at which no frame starts.
abbrev pub IsNoStart : ℕ → Type 0
IsNoStart b = (b == 0xff) ≡ false

pub plain-IsNoStart : (bs : List ℕ) → All IsPlain bs → All IsNoStart bs
plain-IsNoStart [] h = tt
plain-IsNoStart (b ∷ bs) h = (h.0.1, plain-IsNoStart bs h.1)

pub sections-IsPlain : (ss : List Section) → All HasPlainMarks ss → All IsPlain (sections ss)
unfolding sections
sections-IsPlain [] h = tt
sections-IsPlain (s ∷ ss) h =
    All-append IsPlain (section_bytes s) (sections ss) (section-IsPlain s h.0)
      (sections-IsPlain ss h.1)

or_else-none : {A : Type 0} (o : Option A) → or_else o none ≡ o
or_else-none none = refl
or_else-none (some a) = refl

totals_from-no_start : (bs : List ℕ) (n : ℕ) → All IsNoStart bs → totals_from bs n ≡ none
unfolding totals_from
totals_from-no_start [] n h = refl
totals_from-no_start (b ∷ bs) n h = rw h.0 (totals_from-no_start bs n h.1)

-- The only frame of a buffer is the one that is read.
totals_from-noise :
    (noise bs : List ℕ) (n : ℕ)
    → All IsNoStart noise
    → All IsNoStart bs
    → totals_from (noise ++ (0xff ∷ bs)) n ≡ parse_totals_frame (0xff ∷ bs) n
unfolding totals_from
totals_from-noise [] bs n h hb =
    ap (or_else (parse_totals_frame (0xff ∷ bs) n)) (totals_from-no_start bs n hb)
    ∙ or_else-none (parse_totals_frame (0xff ∷ bs) n)
totals_from-noise (b ∷ noise) bs n h hb = rw h.0 (totals_from-noise noise bs n h.1 hb)

not_zero : (i : ℕ) → (i + 1 == 0) ≡ false
not_zero i = ground arith

pub response-noise :
    (noise bs : List ℕ) (i : ℕ)
    → All IsNoStart noise
    → All IsNoStart bs
    → parse_totals_response (noise ++ (0xff ∷ bs)) (i + 1) ≡ parse_totals_frame (0xff ∷ bs) (i + 1)
unfolding parse_totals_response
response-noise noise bs i h hb = rw (not_zero i) (totals_from-noise noise bs (i + 1) h hb)

no_section :
    (frame : List ℕ) (start n : ℕ) → at frame start ≡ 0xfb → section_markers frame start n ≡ false
unfolding section_markers
no_section frame start n e = rw e refl

if_none : (b : Bool) → ◌≡◌ {A = Option TotalsData} (if b then none else none) none
if_none true = refl
if_none false = refl

-- Behind the last section there is none.
pub parse_totals_frame-end :
    (pre tail : List ℕ) (i : ℕ)
    → 1 + 30 * i ≡ length pre
    → parse_totals_frame (pre ++ (0xfb ∷ tail)) (i + 1) ≡ none
parse_totals_frame-end pre tail i e =
    let frame = pre ++ (0xfb ∷ tail) in
    parse_totals_frame-at frame (length pre) (i + 1) (omega arith)
    ∙ rw (no_section frame (length pre) (i + 1) (at_start pre (0xfb ∷ tail)))
        (if_none (ltb (length frame) (length pre + 30)))
