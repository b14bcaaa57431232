-- ===== src/Gilbarco/Parser/Transaction.antt =====
-- A transaction frame with a correct checksum reads back as the numbers it was made of.
use fuel_station_controller.Base.{
  ℕ, ◌%◌, ◌≤◌, ◌≡◌, refl, arith, false, some, List, [], ◌∷◌, ◌++◌, ◌==◌, ==_self, All, length, ltb,
}
use fuel_station_controller.Gilbarco.Lrc.{gilbarco_lrc, gilbarco_lrc_valid}
use fuel_station_controller.Gilbarco.Commands.{encode_4digit, encode_6digit}
use fuel_station_controller.Gilbarco.Parser.{
  parse_transaction_response, parse_transaction_frame, has_markers, transaction_fields,
  decode_le_bcd,
}
use fuel_station_controller.Gilbarco.Parser.Digits.{decode-encode_4digit, decode-encode_6digit}

-- The first 31 bytes of a pump's transaction frame; the protocol leaves the six bytes `p` to `u` open.
abbrev pub transaction_body : ℕ → ℕ → ℕ → ℕ → ℕ → ℕ → ℕ → ℕ → List ℕ
transaction_body p q r s t price volume amount =
    0xff
    ∷ 0xf1
    ∷ 0xf8
    ∷ 0xeb
    ∷ p
    ∷ q
    ∷ r
    ∷ s
    ∷ 0xf6
    ∷ t
    ∷ 0xf4
    ∷ 0xf7
    ∷ (encode_4digit price
        ++ (0xf9 ∷ (encode_6digit volume ++ (0xfa ∷ (encode_6digit amount ++ (0xfb ∷ []))))))

fields_lem :
    (p q r s t price volume amount lrc : ℕ) (rest : List ℕ)
    → transaction_fields (transaction_body p q r s t price volume amount ++ (lrc ∷ 0xf0 ∷ rest))
      ≡ some (record {
        unit_price_raw = price % 10000;
        volume_raw = volume % 1000000;
        amount_raw = amount % 1000000;
      })
unfolding transaction_fields decode_le_bcd encode_4digit encode_6digit
fields_lem p q r s t price volume amount lrc rest =
    rw (decode-encode_4digit price, decode-encode_6digit volume, decode-encode_6digit amount) refl

long_enough : (n : ℕ) → 33 ≤ n → ltb n 33 ≡ false
long_enough n h = ground arith

frame_lem :
    (p q r s t price volume amount : ℕ) (rest : List ℕ)
    → let body = transaction_body p q r s t price volume amount in
      parse_transaction_frame (body ++ (gilbarco_lrc body ∷ 0xf0 ∷ rest))
      ≡ some (record {
        unit_price_raw = price % 10000;
        volume_raw = volume % 1000000;
        amount_raw = amount % 1000000;
      })
unfolding parse_transaction_frame has_markers gilbarco_lrc_valid encode_4digit encode_6digit
frame_lem p q r s t price volume amount rest =
    let body = transaction_body p q r s t price volume amount in
    rw
      (
        long_enough (length (body ++ (gilbarco_lrc body ∷ 0xf0 ∷ rest))) (omega arith),
        ==_self (gilbarco_lrc body),
      )
      (fields_lem p q r s t price volume amount (gilbarco_lrc body) rest)

-- A frame with a correct checksum, whatever follows it, is read back, when what comes before it
-- holds no 0xFF byte.
pub parse_transaction_response-frame :
    (noise : List ℕ) (p q r s t price volume amount : ℕ) (rest : List ℕ)
    → All (λ b. (b == 0xff) ≡ false) noise
    → let body = transaction_body p q r s t price volume amount in
      parse_transaction_response (noise ++ (body ++ (gilbarco_lrc body ∷ 0xf0 ∷ rest)))
      ≡ some (record {
        unit_price_raw = price % 10000;
        volume_raw = volume % 1000000;
        amount_raw = amount % 1000000;
      })
unfolding parse_transaction_response
parse_transaction_response-frame [] p q r s t price volume amount rest h =
    rw (frame_lem p q r s t price volume amount rest) refl
parse_transaction_response-frame (b ∷ bs) p q r s t price volume amount rest h =
    rw h.0 (parse_transaction_response-frame bs p q r s t price volume amount rest h.1)
