-- ===== src/Wayne/Accumulator.antt =====
-- crates/wayne-europump/src/parser.rs: `FrameAccumulator`. The state is the buffer.
pub mod Bounds
use fuel_station_controller.Base.{
  ℕ, zero, suc, ◌+◌, ◌-◌, Bool, true, false, ◌&&◌, ◌||◌, not, Option, none, some, List, [], ◌∷◌,
  ◌++◌, length, take, drop, ltb, leb, ◌==◌, if◌then◌else◌, ◌>>=◌,
}
use fuel_station_controller.Wayne.Bytes.{
  is_high_addr, is_valid_addr_byte, next_is_addr, is_short_frame,
}

abbrev pub max_buf : ℕ
max_buf = 64

-- The buffer after `clear`.
abbrev pub clear : List ℕ
clear = []

unfoldable pub keep_or : List ℕ → Option (List ℕ) → List ℕ
keep_or buf none = buf
keep_or buf (some trimmed) = trimmed

-- The loop of `trim_leading_garbage`: nothing when the buffer holds no address byte, and then it is
-- left as it is.
unfoldable pub trim_loop : List ℕ → Option (List ℕ)
unfolding is_valid_addr_byte is_high_addr next_is_addr keep_or
trim_loop [] = none
trim_loop (b ∷ rest) =
    let again = trim_loop rest in
    if not (is_valid_addr_byte b)
    then again
    else if is_high_addr b && next_is_addr rest
    then some (keep_or rest again)
    else some (b ∷ rest)

unfoldable pub trim_leading_garbage : List ℕ → List ℕ
unfolding trim_loop keep_or
trim_leading_garbage buf = keep_or buf (trim_loop buf)

-- The position of the second byte of the first `03 FA`.
unfoldable pub find_03fa : List ℕ → Option ℕ
find_03fa [] = none
find_03fa (a ∷ []) = none
find_03fa (a ∷ b ∷ rest) =
    let next = find_03fa (b ∷ rest) >>= λ i. some (i + 1) in
    if a == 0x03 && b == 0xfa then some 1 else next

-- The loop of `push_bytes` with the frames found and the buffer; `none` is the fuel.
unfoldable pub push_loop : ℕ → List (List ℕ) → List ℕ → Option (List (List ℕ) × List ℕ)
unfolding trim_leading_garbage find_03fa is_short_frame
push_loop zero out buf = none
push_loop (suc fuel) out buf =
    let trimmed = trim_leading_garbage buf in
    let after_short = push_loop fuel (out ++ (take 3 trimmed ∷ [])) (drop 3 trimmed) in
    if length trimmed == 0
    then some (out, trimmed)
    else if is_short_frame trimmed
    then after_short
    else elim (find_03fa trimmed) [
      | some pos ↦ push_loop fuel (out ++ (take (pos + 1) trimmed ∷ [])) (drop (pos + 1) trimmed)
      | none ↦ if ltb max_buf (length trimmed) then some (out, clear) else some (out, trimmed)
    ]

-- Each round that goes on drains a frame of two bytes at least.
unfoldable pub push_bytes : List ℕ → List ℕ → Option (List (List ℕ) × List ℕ)
unfolding push_loop
push_bytes buf chunk = push_loop (suc (length (buf ++ chunk))) [] (buf ++ chunk)
