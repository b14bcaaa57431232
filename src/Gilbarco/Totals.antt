-- ===== src/Gilbarco/Totals.antt =====
-- crates/gilbarco/src/parser.rs: the lifetime totals of the nozzles.
pub mod Frames
pub mod Checked
pub mod Sections
pub mod RoundTrip
use fuel_station_controller.Base.{
  ℕ, zero, suc, ◌+◌, ◌-◌, ◌*◌, bit_and, bit_or, Bool, true, false, ◌&&◌, not, Option, none, some,
  List, [], ◌∷◌, length, take, drop, ltb, ◌==◌, if◌then◌else◌, ◌>>=◌, ◌≡◌, refl,
}
use fuel_station_controller.Gilbarco.Lrc.{gilbarco_lrc_valid}
use fuel_station_controller.Gilbarco.Parser.{TotalsData, at, or_else, decode_le_bcd}

-- Position of the checksum: behind the first `FB`, before `F0`; the list starts at position `i`.
unfoldable pub totals_end : ℕ → List ℕ → Option ℕ
totals_end i [] = none
totals_end i (b ∷ bs) =
    let next = totals_end (i + 1) bs in
    if ltb (length (b ∷ bs)) 3
    then none
    else if b == 0xfb && (bit_and (at bs 0) 0xf0 == 0xe0 && at bs 1 == 0xf0)
    then some (i + 1)
    else next

unfoldable pub find_totals_frame_end : List ℕ → ℕ → Option ℕ
unfolding totals_end
find_totals_frame_end frame min_start = totals_end min_start (drop min_start frame)

-- The markers of the section of a nozzle.
unfoldable pub section_markers : List ℕ → ℕ → ℕ → Bool
section_markers frame section nozzle_index =
    at frame section == 0xf6
    && (at frame (section + 1) == bit_or 0xe0 (bit_and (nozzle_index - 1) 0x0f)
        && (at frame (section + 2) == 0xf9
            && (at frame (section + 11) == 0xfa
                && (at frame (section + 20) == 0xf4 && at frame (section + 25) == 0xf5))))

-- A frame whose end is not there yet is not checked.
unfoldable pub totals_checked : List ℕ → ℕ → Bool
unfolding find_totals_frame_end
totals_checked frame section = elim (find_totals_frame_end frame (section + 30)) [
  | some end ↦ gilbarco_lrc_valid (take end frame) (at frame end)
  | none ↦ true
]

unfoldable pub totals_fields : List ℕ → ℕ → ℕ → Option TotalsData
unfolding decode_le_bcd
totals_fields frame section nozzle_index = do
  volume ← decode_le_bcd (take 8 (drop (section + 3) frame))
  amount ← decode_le_bcd (take 8 (drop (section + 12) frame))
  price ← decode_le_bcd (take 4 (drop (section + 21) frame))
  some (record {
    nozzle_index = nozzle_index;
    volume_total_raw = volume;
    amount_total_raw = amount;
    unit_price_raw = price;
  })

unfoldable pub parse_totals_frame : List ℕ → ℕ → Option TotalsData
unfolding section_markers totals_checked totals_fields
parse_totals_frame frame nozzle_index =
    let section = 1 + 30 * (nozzle_index - 1) in
    if ltb (length frame) (section + 30)
    then none
    else if not (section_markers frame section nozzle_index)
    then none
    else if not (totals_checked frame section)
    then none
    else totals_fields frame section nozzle_index

-- The first position that holds `0xFF` and a valid frame.
unfoldable pub totals_from : List ℕ → ℕ → Option TotalsData
unfolding parse_totals_frame
totals_from [] nozzle_index = none
totals_from (b ∷ bs) nozzle_index =
    let next = totals_from bs nozzle_index in
    if b == 0xff then or_else (parse_totals_frame (b ∷ bs) nozzle_index) next else next

unfoldable pub parse_totals_response : List ℕ → ℕ → Option TotalsData
unfolding totals_from
parse_totals_response buf nozzle_index =
    if nozzle_index == 0 then none else totals_from buf nozzle_index

-- From nozzle `n` on, while a section decodes, `count` sections at most.
unfoldable pub totals_while : ℕ → ℕ → List ℕ → List TotalsData
unfolding parse_totals_response
totals_while zero n buf = []
totals_while (suc count) n buf =
    let rest = totals_while count (n + 1) buf in
    elim (parse_totals_response buf n) [ some t ↦ t ∷ rest | none ↦ [] ]

unfoldable pub parse_all_totals_response : List ℕ → List TotalsData
unfolding totals_while
parse_all_totals_response buf = totals_while 8 1 buf
