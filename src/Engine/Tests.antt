-- ===== src/Engine/Tests.antt =====
-- Runs of the theorems on a small station, with volumes in microlitres.
use fuel_station_controller.Base.{
  ℕ, ◌+◌, ◌-◌, ◌*◌, ◌/◌, ◌^◌, true, false, none, some, List, [], ◌∷◌, ◌≡◌, refl, ltb, leb, ◌==◌,
  if◌then◌else◌, ◌⊎◌, arith,
}
use fuel_station_controller.Engine.Float.{Float}
use fuel_station_controller.Engine.Types.{
  app_final, stopped, NozzleConfig, FuelingPositionConfig, SiteConfig, active_nozzles,
}
use fuel_station_controller.Engine.Runtime.{RuntimeFp, Call, in_session, lookup}
use fuel_station_controller.Engine.Session.{in_decel_window}
use fuel_station_controller.Engine.Frames.{apply_frame, reading_of, decode_volume}
use fuel_station_controller.Engine.Metering.{data_session}
use fuel_station_controller.Engine.Sound.{Displays, carries_sale}
use fuel_station_controller.Engine.Sound.Reached.{
  Bills, Reachable-Displays, apply_frame_records_once,
}
use fuel_station_controller.Engine.Sound.Closing.{Closing, close_stopped-shown}
use fuel_station_controller.Engine.Unverified.{is_display, apply_frame_unverified}
use fuel_station_controller.Engine.StopTwice.{apply_stop_twice}
use fuel_station_controller.Engine.Volume.{decode_volume_cases}
use fuel_station_controller.Engine.Nozzles.{resolve_wayne_nozzle}
use fuel_station_controller.Engine.Nozzles.Resolved.{has_index, resolve_wayne_nozzle-active}
use fuel_station_controller.Engine.Prices.{last_price, set_nozzle_price-sync}
use fuel_station_controller.Engine.DecelWindow.{Advances, data_session-Advances}
use fuel_station_controller.Wayne.Bytes.{trim_garbage_prefix, verify_crc, is_short_frame}
use fuel_station_controller.Wayne.Fill.{parse_fill_data_block}
use fuel_station_controller.Wayne.Parser.{parse_frame}
use fuel_station_controller.Engine.Operator.{
  new_runtime, apply_stop, set_nozzle_price, sync_nozzles_from_config,
}
use fuel_station_controller.Engine.Sales.{close_stopped}
use fuel_station_controller.Engine.Steps.{frame, stop, Reachable, started, next}
use fuel_station_controller.Wayne.Frame.{Frame, DataFields}

abbrev micro : Float
micro = record {
  Carrier = ℕ;
  of_nat = λ n. n * 1000000;
  decimal = λ n k. n * 1000000 / 10 ^ k;
  scientific = λ m e. m * 10 ^ e * 1000000;
  add = λ x y. x + y;
  sub = λ x y. x - y;
  mul = λ x y. x * y / 1000000;
  div = λ x y. x * 1000000 / y;
  abs = λ x. x;
  less = ltb;
  at_most = leb;
  round = λ x. (x + 500000) / 1000000;
  show_2 = λ x. "";
}

abbrev nozzle : NozzleConfig
nozzle = record {
  index = 2;
  product_id = 7;
  price = 9500;
  active = true;
  wayne_code = 0x11;
  wayne_product_code = 0;
}

abbrev position : FuelingPositionConfig
position = record {
  id = "fp-1";
  label = "Pump 1";
  address_byte = 0x53;
  active = true;
  nozzles = nozzle ∷ [];
}

abbrev site : SiteConfig
site = record {
  products = record { id = 7; name = "A-95"; color = "#ffcc00" } ∷ [];
  fueling_positions = position ∷ [];
  reconnect_settle_rounds = 0;
}

abbrev call : Call
call = record {
  fp_cfg = position;
  site = site;
  active_shift_id = none;
  active_operator_name = none;
  now = 1000000;
  fresh_id = "tx-1";
}

-- 1.50 litres and 14 250 of money, with the lifted hose 0x11.
abbrev fuel : DataFields
fuel = record {
  addr = 0x53;
  seq = 0x31;
  volume_x1 = 0;
  volume_x2 = 0;
  volume_l = 0x01;
  volume_h = 0x50;
  amount = 0x00 ∷ 0x01 ∷ 0x42 ∷ 0x50 ∷ [];
  sale_complete = false;
  hose_product = some 1;
  hose_code = some 0x11;
  crc_ok = true;
}

abbrev fresh_lane : RuntimeFp ℕ
fresh_lane = new_runtime micro call

abbrev fueled_lane : RuntimeFp ℕ
fueled_lane = (apply_frame micro call (Frame.data_frame fuel) fresh_lane).0

abbrev stopped_lane : RuntimeFp ℕ
stopped_lane = (apply_stop micro call false fueled_lane).0

stopped_lane_reached : Reachable micro stopped_lane
stopped_lane_reached =
    next (next (started call) (frame call (Frame.data_frame fuel) fresh_lane))
      (stop call false fueled_lane)

stopped_lane_status : stopped_lane.state.status ≡ stopped 1500000 14250 "tx-1" app_final
unfolding apply_stop apply_frame new_runtime
stopped_lane_status = refl

Reachable-Displays_example :
    Displays ℕ stopped_lane.state.status stopped_lane.stopped_context stopped_lane.continuation
Reachable-Displays_example = Reachable-Displays micro stopped_lane stopped_lane_reached

close_stopped-shown_example :
    Closing micro call stopped_lane "tx-1" "tx-1" (close_stopped micro call "tx-1" stopped_lane)
close_stopped-shown_example =
    close_stopped-shown micro call stopped_lane 1500000 14250 "tx-1" "tx-1" app_final
      stopped_lane_reached stopped_lane_status

abbrev stop_frame : Frame
stop_frame = Frame.stopped 0x53 0x31

stop_frame-carries_sale : carries_sale (apply_frame micro call stop_frame fueled_lane).1 ≡ true
unfolding apply_frame new_runtime
stop_frame-carries_sale = refl

apply_frame_records_once_example :
    ((apply_frame micro call stop_frame fueled_lane).0.current_tx ≡ none)
    × ((in_session (apply_frame micro call stop_frame fueled_lane).0.state.status ≡ false)
        × Bills ℕ
            (apply_frame micro call stop_frame fueled_lane).1
            (apply_frame micro call stop_frame fueled_lane).0.state)
apply_frame_records_once_example =
    apply_frame_records_once micro call stop_frame fueled_lane
      (next (started call) (frame call (Frame.data_frame fuel) fresh_lane)) stop_frame-carries_sale

-- A meter block whose CRC bytes are wrong.
abbrev spoiled_meter : List ℕ
spoiled_meter =
    0x53 ∷ 0x31 ∷ 0x02 ∷ 0x08 ∷ 0x00 ∷ 0x00 ∷ 0x01 ∷ 0x50 ∷ 0x00 ∷ 0x01 ∷ 0x42 ∷ 0x50 ∷ 0x00 ∷ 0x00
    ∷ 0x03 ∷ 0xfa ∷ []

abbrev spoiled_fields : DataFields
spoiled_fields = record {
  addr = 0x53;
  seq = 0x31;
  volume_x1 = 0;
  volume_x2 = 0;
  volume_l = 0x01;
  volume_h = 0x50;
  amount = 0x00 ∷ 0x01 ∷ 0x42 ∷ 0x50 ∷ [];
  sale_complete = false;
  hose_product = none;
  hose_code = none;
  crc_ok = false;
}

spoiled_meter_crc : verify_crc (trim_garbage_prefix spoiled_meter) ≡ false
unfolding verify_crc trim_garbage_prefix
spoiled_meter_crc = refl

spoiled_meter_frame : parse_frame spoiled_meter ≡ Frame.data_frame spoiled_fields
unfolding parse_frame is_short_frame verify_crc parse_fill_data_block
spoiled_meter_frame = refl

apply_frame_unverified_example :
    is_display (apply_frame micro call (parse_frame spoiled_meter) fueled_lane).1 ≡ true
apply_frame_unverified_example =
    apply_frame_unverified micro call spoiled_meter spoiled_fields fueled_lane spoiled_meter_crc
      spoiled_meter_frame

abbrev later_call : Call
later_call = record call { now = 1002500; fresh_id = "tx-2" }

apply_stop_twice_example :
    apply_stop micro later_call true (apply_stop micro call true fueled_lane).0
    ≡ ((apply_stop micro call true fueled_lane).0, none)
apply_stop_twice_example = apply_stop_twice micro call later_call true fueled_lane

abbrev ghost_lane : RuntimeFp ℕ
ghost_lane = record fueled_lane { wayne = record fueled_lane.wayne { ghost_recovery = true } }

decode_volume_cases_example :
    (decode_volume micro 0x00 0x01 0x23 0x45 ≡ 12345 * 1000000 * 1000000 / 100000000)
    × (decode_volume micro 0 0 1 (14 * 16 + 5) ≡ 1 * 10 ^ 5 * 1000000 * 1000000 / 100000000)
decode_volume_cases_example =
    decode_volume_cases micro 0x00 0x01 0x23 0x45 1 5 refl (omega arith) (omega arith)

resolve_wayne_nozzle-active_example :
    (has_index (resolve_wayne_nozzle site position 1 0x11).0 (active_nozzles position) ≡ true)
    ⊎ ((active_nozzles position ≡ []) × ((resolve_wayne_nozzle site position 1 0x11).0 ≡ 1))
resolve_wayne_nozzle-active_example = resolve_wayne_nozzle-active site position 1 0x11

set_nozzle_price-sync_example :
    lookup 2
      (set_nozzle_price micro call 2 9700
        (sync_nozzles_from_config micro call fueled_lane)).1.nozzle_prices
    ≡ (if 2 == 2 then some 9700 else last_price 2 (active_nozzles position))
set_nozzle_price-sync_example = set_nozzle_price-sync micro call call fueled_lane 2 9700 2

-- The lane slows down after a stop, and the counter stands still.
abbrev slowing_lane : RuntimeFp ℕ
slowing_lane = (apply_stop micro call true fueled_lane).0

slowing_lane_window : in_decel_window slowing_lane ≡ true
unfolding apply_stop apply_frame new_runtime in_decel_window
slowing_lane_window = refl

slowing_lane_still :
    micro.less
      (micro.add slowing_lane.wayne.decel_vol_snapshot (micro.decimal 5 3))
      (reading_of micro fuel).raw_vol
    ≡ false
unfolding apply_stop apply_frame new_runtime reading_of
slowing_lane_still = refl

data_session-Advances_example :
    Advances micro call slowing_lane
      (data_session micro call (reading_of micro fuel) slowing_lane).0
unfolding reading_of
data_session-Advances_example =
    data_session-Advances micro call (reading_of micro fuel) slowing_lane slowing_lane_window refl
      refl slowing_lane_still
