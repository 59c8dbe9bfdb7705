-- ===== src/Charge.antt =====
-- src/batt_curve.c and src/tag_ui_color.c: the state of charge of the cell, and its colour.
pub mod Bounds
mod Tests
use tag_testting.Common.{ℕ, ◌+◌, ◌-◌, ◌*◌, ◌/◌, List, [], ◌∷◌, leb, ltb, if◌then◌else◌}

-- A row of `curve`: the voltage in mV and the charge in percent.
pub record CurvePoint : Type 0 where
  pub mv : ℕ
  pub pct : ℕ

abbrev pub curve_first : CurvePoint
curve_first = record { mv = 3500; pct = 0 }

-- `curve` after its first row
abbrev pub curve_rest : List CurvePoint
curve_rest =
    record { mv = 3610; pct = 5 }
    ∷ record { mv = 3690; pct = 10 }
    ∷ record { mv = 3710; pct = 15 }
    ∷ record { mv = 3730; pct = 20 }
    ∷ record { mv = 3750; pct = 25 }
    ∷ record { mv = 3770; pct = 30 }
    ∷ record { mv = 3790; pct = 35 }
    ∷ record { mv = 3800; pct = 40 }
    ∷ record { mv = 3820; pct = 45 }
    ∷ record { mv = 3840; pct = 50 }
    ∷ record { mv = 3850; pct = 55 }
    ∷ record { mv = 3870; pct = 60 }
    ∷ record { mv = 3910; pct = 65 }
    ∷ record { mv = 3950; pct = 70 }
    ∷ record { mv = 3980; pct = 75 }
    ∷ record { mv = 4020; pct = 80 }
    ∷ record { mv = 4080; pct = 85 }
    ∷ record { mv = 4110; pct = 90 }
    ∷ record { mv = 4150; pct = 95 }
    ∷ record { mv = 4200; pct = 100 }
    ∷ []

-- The loop of `lipo_mv_to_pct` over the rows after `below`; past the last row it returns 100.
unfoldable pub interpolate : CurvePoint → List CurvePoint → ℕ → ℕ
interpolate below [] mv = 100
interpolate below (above ∷ rest) mv =
    let later = interpolate above rest mv in
    if ltb mv above.mv
    then below.pct + (mv - below.mv) * (above.pct - below.pct) / (above.mv - below.mv)
    else later

-- `lipo_mv_to_pct` of a voltage that is not negative.
unfoldable pub lipo_mv_to_pct : ℕ → ℕ
unfolding interpolate
lipo_mv_to_pct mv =
    if leb mv 3500 then 0 else if leb 4200 mv then 100 else interpolate curve_first curve_rest mv

-- The red, green and blue of a row of `levels`.
pub record Colour : Type 0 where
  pub r : ℕ
  pub g : ℕ
  pub b : ℕ

abbrev pub green : Colour
green = record { r = 0; g = 10; b = 0 }

abbrev pub yellow : Colour
yellow = record { r = 10; g = 10; b = 0 }

abbrev pub orange : Colour
orange = record { r = 10; g = 4; b = 0 }

abbrev pub red : Colour
red = record { r = 10; g = 0; b = 0 }

-- `soc_to_rgb` of a charge that is not negative: the first row that it reaches, or the last.
unfoldable pub soc_to_rgb : ℕ → Colour
soc_to_rgb soc =
    if leb 75 soc then green else if leb 50 soc then yellow else if leb 25 soc then orange else red
