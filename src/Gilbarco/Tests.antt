-- ===== src/Gilbarco/Tests.antt =====
-- The theorems of this folder at concrete inputs.
use fuel_station_controller.Base.{
  length, ℕ, ◌+◌, ◌-◌, ◌%◌, ◌==◌, ◌≡◌, refl, arith, false, some, All, List, [], ◌∷◌, ◌++◌,
  if◌then◌else◌,
}
use fuel_station_controller.Gilbarco.Lrc.{gilbarco_lrc}
use fuel_station_controller.Gilbarco.Lrc.Laws.{sum, gilbarco_lrc_lem}
use fuel_station_controller.Gilbarco.Commands.{encode_4digit, encode_6digit}
use fuel_station_controller.Gilbarco.Parser.{parse_display_response, parse_transaction_response}
use fuel_station_controller.Gilbarco.Parser.Digits.{parse_display_response-encode_6digit}
use fuel_station_controller.Gilbarco.Totals.{parse_all_totals_response}
use fuel_station_controller.Gilbarco.Totals.Frames.{Section, section_bytes, is_marked}
use fuel_station_controller.Gilbarco.Totals.Checked.{IsPlain, HasPlainMarks}
use fuel_station_controller.Gilbarco.Totals.Sections.{sections, totals_body, entries}
use fuel_station_controller.Gilbarco.Totals.RoundTrip.{parse_all_totals_response-totals_body}
use fuel_station_controller.Gilbarco.Parser.Transaction.{
  transaction_body, parse_transaction_response-frame,
}

gilbarco_lrc_lem_example :
    (gilbarco_lrc (0xff ∷ 0xe5 ∷ []) ≡ 0xe0 + (16 - sum (0xff ∷ 0xe5 ∷ []) % 16) % 16)
    × ((sum (0xff ∷ 0xe5 ∷ []) + gilbarco_lrc (0xff ∷ 0xe5 ∷ [])) % 16 ≡ 0)
gilbarco_lrc_lem_example = gilbarco_lrc_lem (0xff ∷ 0xe5 ∷ [])

parse_display_response-encode_6digit_example :
    parse_display_response ((0x61 ∷ 0xea ∷ []) ++ (encode_6digit 1234567 ++ (0xe0 ∷ [])))
    ≡ some (1234567 % 1000000)
parse_display_response-encode_6digit_example =
    parse_display_response-encode_6digit (0x61 ∷ 0xea ∷ []) 1234567 (0xe0 ∷ []) (refl, (refl, tt))

abbrev sale_body : List ℕ
sale_body = transaction_body 0xe0 0xe0 0xe0 0xe0 0xe0 1250 2050 256250

parse_transaction_response-frame_example :
    parse_transaction_response
      ((0x41 ∷ []) ++ (sale_body ++ (gilbarco_lrc sale_body ∷ 0xf0 ∷ 0x00 ∷ [])))
    ≡ some (record { unit_price_raw = 1250; volume_raw = 2050; amount_raw = 256250 })
parse_transaction_response-frame_example =
    parse_transaction_response-frame (0x41 ∷ []) 0xe0 0xe0 0xe0 0xe0 0xe0 1250 2050 256250
      (0x00 ∷ []) (refl, tt)

-- The totals of three nozzles.
abbrev totals_frame : List ℕ
totals_frame =
    0xff ∷ 0xf6 ∷ 0xe0 ∷ 0xf9 ∷ 0xe6 ∷ 0xe6 ∷ 0xe9 ∷ 0xe4 ∷ 0xe3 ∷ 0xe6 ∷ 0xe6 ∷ 0xe2 ∷ 0xfa ∷ 0xe7
    ∷ 0xe6 ∷ 0xe2 ∷ 0xe0 ∷ 0xe8 ∷ 0xe7 ∷ 0xe2 ∷ 0xe8 ∷ 0xf4 ∷ 0xe0 ∷ 0xe3 ∷ 0xe1 ∷ 0xe1 ∷ 0xf5
    ∷ 0xe0 ∷ 0xe0 ∷ 0xe0 ∷ 0xe0 ∷ 0xf6 ∷ 0xe1 ∷ 0xf9 ∷ 0xe8 ∷ 0xe6 ∷ 0xe0 ∷ 0xe5 ∷ 0xe0 ∷ 0xe6
    ∷ 0xe5 ∷ 0xe3 ∷ 0xfa ∷ 0xe3 ∷ 0xe2 ∷ 0xe5 ∷ 0xe1 ∷ 0xe2 ∷ 0xe2 ∷ 0xe2 ∷ 0xe8 ∷ 0xf4 ∷ 0xe0
    ∷ 0xe0 ∷ 0xe1 ∷ 0xe1 ∷ 0xf5 ∷ 0xe0 ∷ 0xe0 ∷ 0xe0 ∷ 0xe0 ∷ 0xf6 ∷ 0xe2 ∷ 0xf9 ∷ 0xe2 ∷ 0xe3
    ∷ 0xe9 ∷ 0xe5 ∷ 0xe0 ∷ 0xe4 ∷ 0xe9 ∷ 0xe9 ∷ 0xfa ∷ 0xe9 ∷ 0xe1 ∷ 0xe8 ∷ 0xe1 ∷ 0xe0 ∷ 0xe1
    ∷ 0xe1 ∷ 0xe8 ∷ 0xf4 ∷ 0xe0 ∷ 0xe3 ∷ 0xe4 ∷ 0xe1 ∷ 0xf5 ∷ 0xe0 ∷ 0xe0 ∷ 0xe0 ∷ 0xe0 ∷ 0xfb
    ∷ 0xec ∷ 0xf0 ∷ []

abbrev right_section : ℕ → ℕ → ℕ → ℕ → Section
right_section index_mark volume amount price = record {
  header_mark = 0xf6;
  index_mark = index_mark;
  volume_mark = 0xf9;
  amount_mark = 0xfa;
  price_mark = 0xf4;
  spare_mark = 0xf5;
  volume = volume;
  amount = amount;
  price = price;
  spare = 0;
}

abbrev totals_of_three : List Section
totals_of_three =
    right_section 0xe0 26634966 82780267 1130
    ∷ right_section 0xe1 35605068 82221523 1100
    ∷ right_section 0xe2 99405932 81101819 1430
    ∷ []

-- The frame of the source's own tests.
totals_of_three_frame : totals_body totals_of_three ++ (0xec ∷ 0xf0 ∷ []) ≡ totals_frame
unfolding sections section_bytes encode_4digit
totals_of_three_frame = refl

three_read : length (entries 0 totals_of_three) ≡ 3
unfolding entries is_marked
three_read = refl

right_section-HasPlainMarks :
    (index_mark volume amount price : ℕ)
    → IsPlain index_mark
    → HasPlainMarks (right_section index_mark volume amount price)
right_section-HasPlainMarks index_mark volume amount price h =
    let same : (false ≡ false) × (false ≡ false) = (refl, refl) in
    (same, (h, (same, (same, (same, same)))))

totals_of_three-HasPlainMarks : All HasPlainMarks totals_of_three
totals_of_three-HasPlainMarks = (
  right_section-HasPlainMarks 0xe0 26634966 82780267 1130 (refl, refl),
  (
    right_section-HasPlainMarks 0xe1 35605068 82221523 1100 (refl, refl),
    (right_section-HasPlainMarks 0xe2 99405932 81101819 1430 (refl, refl), tt),
  ),
)

parse_all_totals_response-totals_body_example :
    parse_all_totals_response
      ((0x51 ∷ []) ++ (totals_body totals_of_three ++ ((0xe0 + 12) ∷ 0xf0 ∷ (0x61 ∷ []))))
    ≡ (if gilbarco_lrc (totals_body totals_of_three) == 0xe0 + 12
        then entries 0 totals_of_three
        else [])
parse_all_totals_response-totals_body_example =
    parse_all_totals_response-totals_body (0x51 ∷ []) totals_of_three 12 (0x61 ∷ []) (refl, tt)
      (refl, tt) totals_of_three-HasPlainMarks (omega arith) (omega arith)
