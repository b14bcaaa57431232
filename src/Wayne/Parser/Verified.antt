-- ===== src/Wayne/Parser/Verified.antt =====
-- What a wrong CRC rules out, and the address that every reply carries.
use fuel_station_controller.Base.{
  ℕ, ◌-◌, ◌≡◌, refl, bit_and, Bool, true, false, ◌&&◌, ◌||◌, not, Option, none, some, List, [], ◌∷◌,
  length, take, ltb, leb, ◌==◌, if◌then◌else◌,
}
use fuel_station_controller.Wayne.Frame.{
  Frame, poll, idle, ack_c0, data_frame, nozzle_up, nozzle_returned, dispenser_idle,
  transaction_complete, stopped, nozzle_holstered, unknown, response_addr, is_nozzle_holster_code,
  is_nozzle_lift_code,
}
use fuel_station_controller.Wayne.Bytes.{at, trim_garbage_prefix, verify_crc, is_short_frame}
use fuel_station_controller.Wayne.Fill.{FillDataFields, parse_fill_data_block}
use fuel_station_controller.Wayne.Parser.{
  is_seq, data_of_fill, data_of_unverified, unverified_frame, hose_frame, variant_hose_frame,
  meter_frame, state_frame, verified_frame, ends_03fa, long_frame, trimmed_frame, parse_frame,
}

-- A short frame, an unknown one, or a data frame that is neither checked nor complete.
abbrev pub is_harmless : Frame → Bool
is_harmless (poll addr) = true
is_harmless (idle addr) = true
is_harmless (ack_c0 addr) = true
is_harmless (unknown bytes) = true
is_harmless (data_frame d) = not d.crc_ok && not d.sale_complete
is_harmless (nozzle_up addr seq product nozzle) = false
is_harmless (nozzle_returned addr seq product hose) = false
is_harmless (dispenser_idle addr seq) = false
is_harmless (transaction_complete addr seq) = false
is_harmless (stopped addr seq) = false
is_harmless (nozzle_holstered addr seq) = false

record IsHarmless (f : Frame) : Type 0 where
  holds : is_harmless f ≡ true

IsHarmless-if :
    (b : Bool) {f g : Frame} → IsHarmless f → IsHarmless g → IsHarmless (if b then f else g)
IsHarmless-if true hf hg = hf
IsHarmless-if false hf hg = hg

IsHarmless-fill :
    (o : Option FillDataFields) (addr seq : ℕ) (raw : List ℕ)
    → IsHarmless (elim o [ some d ↦ data_of_unverified addr seq d | none ↦ unknown raw ])
unfolding data_of_unverified
IsHarmless-fill none addr seq raw = record { holds = refl }
IsHarmless-fill (some d) addr seq raw = record { holds = refl }

IsHarmless-unverified :
    (addr : ℕ) (raw inner : List ℕ) → IsHarmless (unverified_frame addr raw inner)
unfolding unverified_frame
IsHarmless-unverified addr raw inner =
    IsHarmless-if (leb 2 (length inner) && is_seq (at inner 1))
      (IsHarmless-fill (parse_fill_data_block inner) addr (at inner 1) raw)
      (record { holds = refl })

IsHarmless-long :
    (addr : ℕ) (raw : List ℕ) → verify_crc raw ≡ false → IsHarmless (long_frame addr raw)
unfolding long_frame
IsHarmless-long addr raw h =
    IsHarmless-if (not (ends_03fa raw)) (record { holds = refl })
      (rw h (IsHarmless-unverified addr raw (take (length raw - 4) raw)))

IsHarmless-trimmed : (raw : List ℕ) → verify_crc raw ≡ false → IsHarmless (trimmed_frame raw)
unfolding trimmed_frame
IsHarmless-trimmed [] h = record { holds = refl }
IsHarmless-trimmed (b ∷ rest) h =
    let long = IsHarmless-long (bit_and b 0x7f) (b ∷ rest) h in
    let raw = b ∷ rest in
    IsHarmless-if (is_short_frame raw)
      (IsHarmless-if (at raw 1 == 0x20) (record { holds = refl })
        (IsHarmless-if (at raw 1 == 0x70) (record { holds = refl })
          (IsHarmless-if (at raw 1 == 0xc0 || at raw 1 == 0xc1) (record { holds = refl }) long)))
      long

-- A buffer whose CRC is wrong gives a short frame, an unknown frame, or a data frame that is marked
-- as unchecked and does not complete a sale.
pub parse_frame_unverified :
    (raw : List ℕ)
    → verify_crc (trim_garbage_prefix raw) ≡ false
    → is_harmless (parse_frame raw) ≡ true
unfolding parse_frame
parse_frame_unverified raw h = (IsHarmless-trimmed (trim_garbage_prefix raw) h).holds

-- A frame that comes from `addr`, or from no dispenser.
pub data IsFrom (addr : ℕ) (f : Frame) : Type 0 where
  no_reply : response_addr f ≡ none → IsFrom addr f
  reply_of : response_addr f ≡ some addr → IsFrom addr f

IsFrom-if :
    (b : Bool) (addr : ℕ) {f g : Frame}
    → IsFrom addr f
    → IsFrom addr g
    → IsFrom addr (if b then f else g)
IsFrom-if true addr hf hg = hf
IsFrom-if false addr hf hg = hg

IsFrom-fill : (addr seq : ℕ) (d : FillDataFields) → IsFrom addr (data_of_fill addr seq d)
unfolding data_of_fill response_addr
IsFrom-fill addr seq d = reply_of refl

IsFrom-option :
    (addr : ℕ) (o : Option FillDataFields) (f : FillDataFields → Frame) (g : Frame)
    → ((d : FillDataFields) → IsFrom addr (f d))
    → IsFrom addr g
    → IsFrom addr (elim o [ some d ↦ f d | none ↦ g ])
IsFrom-option addr none f g hf hg = hg
IsFrom-option addr (some d) f g hf hg = hf d

IsFrom-unverified : (addr : ℕ) (raw inner : List ℕ) → IsFrom addr (unverified_frame addr raw inner)
unfolding unverified_frame data_of_unverified response_addr
IsFrom-unverified addr raw inner =
    IsFrom-if (leb 2 (length inner) && is_seq (at inner 1)) addr
      (IsFrom-option addr (parse_fill_data_block inner) (data_of_unverified addr (at inner 1))
        (unknown raw) (λ d. reply_of refl) (no_reply refl))
      (no_reply refl)

IsFrom-hose : (addr seq product nozzle : ℕ) → IsFrom addr (hose_frame addr seq product nozzle)
unfolding hose_frame response_addr
IsFrom-hose addr seq product nozzle =
    IsFrom-if (is_nozzle_holster_code nozzle) addr (reply_of refl) (reply_of refl)

IsFrom-variant :
    (addr seq : ℕ) (raw inner : List ℕ) → IsFrom addr (variant_hose_frame addr seq raw inner)
unfolding variant_hose_frame response_addr
IsFrom-variant addr seq raw inner =
    let nozzle = at inner 7 in
    IsFrom-if
      (leb 8 (length inner) && (at inner 2 == 0x03 && (at inner 3 == 0x04 && at inner 4 == 0x00)))
      addr
      (IsFrom-if (is_nozzle_holster_code nozzle) addr (reply_of refl)
        (IsFrom-if (is_nozzle_lift_code nozzle) addr (reply_of refl) (no_reply refl)))
      (no_reply refl)

IsFrom-meter : (addr seq : ℕ) (raw inner : List ℕ) → IsFrom addr (meter_frame addr seq raw inner)
unfolding meter_frame
IsFrom-meter addr seq raw inner =
    IsFrom-option addr (parse_fill_data_block inner) (data_of_fill addr seq)
      (variant_hose_frame addr seq raw inner) (IsFrom-fill addr seq)
      (IsFrom-variant addr seq raw inner)

IsFrom-state : (addr seq : ℕ) (raw inner : List ℕ) → IsFrom addr (state_frame addr seq raw inner)
unfolding state_frame response_addr
IsFrom-state addr seq raw inner =
    let meter = IsFrom-meter addr seq raw inner in
    IsFrom-if (leb 5 (length inner) && (at inner 2 == 0x01 && at inner 3 == 0x01)) addr
      (IsFrom-if (at inner 4 == 0x05) addr
        (IsFrom-if (length inner == 5) addr (reply_of refl) (reply_of refl))
        (IsFrom-if (at inner 4 == 0x01) addr (reply_of refl)
          (IsFrom-if (at inner 4 == 0x02 || at inner 4 == 0x00) addr (reply_of refl) meter)))
      meter

IsFrom-verified :
    (addr seq : ℕ) (raw inner : List ℕ) → IsFrom addr (verified_frame addr seq raw inner)
unfolding verified_frame
IsFrom-verified addr seq raw inner =
    IsFrom-if
      (leb 8 (length inner) && (at inner 2 == 0x03 && (at inner 3 == 0x04 && at inner 4 == 0x01)))
      addr
      (IsFrom-option addr (parse_fill_data_block inner) (data_of_fill addr seq)
        (hose_frame addr seq (at inner 5) (at inner 7)) (IsFrom-fill addr seq)
        (IsFrom-hose addr seq (at inner 5) (at inner 7)))
      (IsFrom-state addr seq raw inner)

IsFrom-long : (addr : ℕ) (raw : List ℕ) → IsFrom addr (long_frame addr raw)
unfolding long_frame response_addr
IsFrom-long addr raw =
    let inner = take (length raw - 4) raw in
    IsFrom-if (not (ends_03fa raw)) addr (no_reply refl) (
      IsFrom-if (not (verify_crc raw)) addr (IsFrom-unverified addr raw inner) (
        IsFrom-if (ltb (length inner) 2) addr (no_reply refl) (
          IsFrom-if (not (is_seq (at inner 1))) addr (no_reply refl)
            (IsFrom-verified addr (at inner 1) raw inner))))

IsFrom-trimmed : (raw : List ℕ) → IsFrom (bit_and (at raw 0) 0x7f) (trimmed_frame raw)
unfolding trimmed_frame response_addr
IsFrom-trimmed [] = no_reply refl
IsFrom-trimmed (b ∷ rest) =
    let addr = bit_and b 0x7f in
    let long = IsFrom-long addr (b ∷ rest) in
    let raw = b ∷ rest in
    IsFrom-if (is_short_frame raw) addr
      (IsFrom-if (at raw 1 == 0x20) addr (no_reply refl) (
        IsFrom-if (at raw 1 == 0x70) addr (reply_of refl)
          (IsFrom-if (at raw 1 == 0xc0 || at raw 1 == 0xc1) addr (no_reply refl) long)))
      long

-- Every frame that counts as a dispenser's reply carries the first byte behind the garbage, its top
-- bit cleared, as its address.
pub parse_frame-IsFrom :
    (raw : List ℕ) → IsFrom (bit_and (at (trim_garbage_prefix raw) 0) 0x7f) (parse_frame raw)
unfolding parse_frame
parse_frame-IsFrom raw = IsFrom-trimmed (trim_garbage_prefix raw)
