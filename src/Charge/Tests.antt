-- ===== src/Charge/Tests.antt =====
-- The curve of src/batt_curve.c at two voltages.
use tag_testting.Common.{◌≡◌, refl}
use tag_testting.Charge.{interpolate, lipo_mv_to_pct, soc_to_rgb, yellow}

half_charge : lipo_mv_to_pct 3845 ≡ 52
unfolding lipo_mv_to_pct interpolate
half_charge = refl

half_colour : soc_to_rgb 52 ≡ yellow
unfolding soc_to_rgb
half_colour = refl
