-- ===== src/Gilbarco/Parser/Status.antt =====
-- The bus carries the sent byte back: what an echoed command parses as.
use fuel_station_controller.Base.{
  ℕ, ◌*◌, ◌%◌, ◌<◌, ◌≡◌, refl, arith, bit_and, bit_or, if◌then◌else◌, ◌||◌, get_or, true, false,
  ◌==◌, ==_iff, ==_self, ◌&&◌,
}
use fuel_station_controller.Base.Bits.{IsByte, all_below, all_below_sound}
use fuel_station_controller.Gilbarco.Commands.{
  get_display, get_transaction, get_transaction2, command_mode, authorize, halt,
}
use fuel_station_controller.Gilbarco.Parser.{
  GilbarcoStatus, nozzle_lifted, ready, delivering, transaction_complete, stopped, listen_mode,
  offline, parse_status_byte,
}

nibble_table :
    all_below 16 (λ c.
      all_below 16
        (λ x. bit_and (bit_or (16 * c) x) 0xf0 == 16 * c && bit_and (bit_or (16 * c) x) 0x0f == x))
    ≡ true
unfolding all_below
nibble_table = refl

low_table : all_below 256 (λ a. bit_and a 0x0f == a % 16) ≡ true
unfolding all_below
low_table = refl

low_nibble : (a : ℕ) → IsByte a → bit_and a 0x0f ≡ a % 16
low_nibble a h = (==_iff _ _).0 (all_below_sound 256 (λ a. bit_and a 0x0f == a % 16) a low_table h)

nibbles :
    (c x : ℕ)
    → c < 16
    → x < 16
    → (bit_and (bit_or (16 * c) x) 0xf0 ≡ 16 * c) × (bit_and (bit_or (16 * c) x) 0x0f ≡ x)
nibbles c x hc hx =
    let row = all_below_sound 16 _ c nibble_table hc in
    let cell = all_below_sound 16 _ x row hx in ground (arith, cell)

high_byte :
    (c a : ℕ)
    → c < 16
    → IsByte a
    → (bit_and (bit_or (16 * c) (bit_and a 0x0f)) 0xf0 ≡ 16 * c)
      × (bit_and (bit_or (16 * c) (bit_and a 0x0f)) 0x0f ≡ bit_and a 0x0f)
high_byte c a hc ha = nibbles c (bit_and a 0x0f) hc (omega (arith, low_nibble a ha))

status_at :
    (c a : ℕ) (hc : c < 16) (ha : IsByte a)
    → parse_status_byte a (bit_or (16 * c) (bit_and a 0x0f)) ≡ (
        if 16 * c == 0x60
        then GilbarcoStatus.idle
        else if 16 * c == 0x70
        then nozzle_lifted
        else if 16 * c == 0x80
        then ready
        else if 16 * c == 0x90
        then delivering
        else if 16 * c == 0xa0 || 16 * c == 0xb0
        then transaction_complete
        else if 16 * c == 0xc0
        then stopped
        else if 16 * c == 0xd0
        then listen_mode
        else offline)
unfolding parse_status_byte
status_at c a hc ha = let w = high_byte c a hc ha in rw (w.0, w.1, ==_self (bit_and a 0x0f)) refl

-- The echo of a command that the pump at this address was just sent parses as offline for authorize,
-- halt, the command mode and both transaction requests; the echo of the display request parses as
-- idle. The address is any byte.
parse_status_byte-echo :
    (a : ℕ)
    → IsByte a
    → (parse_status_byte a (get_or (authorize a) 0 0) ≡ offline)
      × (parse_status_byte a (get_or (command_mode a) 0 0) ≡ offline)
      × (parse_status_byte a (get_or (halt a) 0 0) ≡ offline)
      × (parse_status_byte a (get_or (get_transaction a) 0 0) ≡ offline)
      × (parse_status_byte a (get_or (get_transaction2 a) 0 0) ≡ offline)
      × (parse_status_byte a (get_or (get_display a) 0 0) ≡ GilbarcoStatus.idle)
unfolding authorize command_mode halt get_transaction get_transaction2 get_display
parse_status_byte-echo a h = (
  status_at 1 a (omega arith) h,
  status_at 2 a (omega arith) h,
  status_at 3 a (omega arith) h,
  status_at 4 a (omega arith) h,
  status_at 5 a (omega arith) h,
  status_at 6 a (omega arith) h,
)

-- A reply whose low nibble is not the pump's address is offline, whatever its high nibble is.
pub parse_status_byte-other_pump :
    (a b : ℕ) → (bit_and b 0x0f == bit_and a 0x0f) ≡ false → parse_status_byte a b ≡ offline
unfolding parse_status_byte
parse_status_byte-other_pump a b h = rw h refl
