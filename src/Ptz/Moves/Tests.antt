-- ===== src/Ptz/Moves/Tests.antt =====
-- Concrete moves, with whole numbers in place of floating point numbers.
use thingino_onvif.Base.Int.{
  ℤ, pos, negsuc, pos_part, neg_part, sub_ℕ, ltb_ℤ, leb_ℤ, equal_ℤ, ◌+ℤ◌, ◌-ℤ◌, ◌*ℤ◌,
}
use thingino_onvif.Base.{◌/◌, true, false, [], none, some, ◌≡◌, refl, arith, codes}
use thingino_onvif.Ptz.Moves.Continuous.{pan_tilt_velocity, zoom_velocity, velocities}
use thingino_onvif.Ptz.Moves.Stop.{stop_move}
use thingino_onvif.Ptz.Moves.{Doubles, MoveNode, MoveRequest, stop, check_move}
use thingino_onvif.Ptz.{served}
use thingino_onvif.Text.Decimal.{atoi}

ltb_ℤ_irrefl : (a : ℤ) → ltb_ℤ a a ≡ false
ltb_ℤ_irrefl a = ground arith

leb_ℤ_of_not_ltb :
    (a b : ℤ) → leb_ℤ a a ≡ true → leb_ℤ b b ≡ true → ltb_ℤ a b ≡ false → leb_ℤ b a ≡ true
leb_ℤ_of_not_ltb a b ha hb h = ground arith

leb_ℤ_numbers : (a b : ℤ) → leb_ℤ a b ≡ true → (leb_ℤ a a ≡ true) × (leb_ℤ b b ≡ true)
leb_ℤ_numbers a b h = ground arith

abbrev whole : Doubles
whole = record {
  Double = ℤ;
  lt = ltb_ℤ;
  le = leb_ℤ;
  eq = equal_ℤ;
  zero = pos 0;
  one = pos 1;
  two = pos 2;
  neg = λ a. sub_ℕ (neg_part a) (pos_part a);
  add = ◌+ℤ◌;
  sub = ◌-ℤ◌;
  mul = ◌*ℤ◌;
  div = λ a b. sub_ℕ (pos_part a / pos_part b) (neg_part a / pos_part b);
  atof = atoi;
  lt_irrefl = ltb_ℤ_irrefl;
  le_of_not_lt = leb_ℤ_of_not_ltb;
  le_numbers = leb_ℤ_numbers;
}

abbrev node : MoveNode ℤ
node = record {
  enable = 1;
  min_step_x = pos 0;
  max_step_x = pos 350;
  min_step_y = pos 0;
  max_step_y = pos 100;
  min_step_z = pos 0;
  max_step_z = pos 10;
  pan_min = negsuc 179;
  pan_max = pos 180;
  tilt_min = negsuc 89;
  tilt_max = pos 90;
  fov_pan = pos 60;
  fov_tilt = pos 40;
  pan_inverted = false;
  tilt_inverted = true;
  reverse_mode_on = false;
  move_x = some (codes "x %f");
  move_y = some (codes "y %f");
  move_both = none;
  move_in = none;
  move_out = none;
  move_stop = some (codes "stop %s");
  jump_to_abs = some (codes "abs %f %f %f");
  jump_to_rel = some (codes "rel %f %f %f");
  jump_to_abs_speed = none;
  jump_to_rel_speed = none;
}

-- A request for pan and tilt only.
abbrev to_corner : MoveRequest
to_corner = record {
  has_profile_token = true;
  target = some (record {
    pan_tilt = some (record { space = none; x = some (codes "1"); y = some (codes "7") });
    zoom = none;
  });
  speed = none;
  pan_tilt_text = none;
  zoom_text = some (codes "FALSE");
}

pan_tilt_stopped :
    stop_move node to_corner
    ≡ served (some (stop (codes "stop %s") (codes "pantilt")), ("ptz_service_files/Stop.xml", []))
unfolding stop_move
pan_tilt_stopped = refl

-- Velocities of pan and tilt, or of pan and zoom.
abbrev drift : MoveRequest
drift = record to_corner {
  target = some (record {
    pan_tilt = some (record { space = none; x = some (codes "90"); y = some (codes "-45") });
    zoom = none;
  });
}

abbrev pan_and_zoom : MoveRequest
pan_and_zoom = record to_corner {
  target = some (record {
    pan_tilt = some (record { space = none; x = some (codes "90"); y = none });
    zoom = some (record { space = none; x = some (codes "1"); y = none });
  });
}

velocities-drift : velocities whole node drift ≡ served (some (pos 87), some (pos 25), none)
unfolding check_move pan_tilt_velocity zoom_velocity atoi ◌+ℤ◌ ◌-ℤ◌ ◌*ℤ◌
velocities-drift = refl

velocities-pan_and_zoom :
    velocities whole node pan_and_zoom ≡ served (some (pos 87), none, some (pos 10))
unfolding check_move pan_tilt_velocity zoom_velocity atoi ◌+ℤ◌ ◌-ℤ◌ ◌*ℤ◌
velocities-pan_and_zoom = refl
