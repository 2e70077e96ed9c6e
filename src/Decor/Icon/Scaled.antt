-- ===== src/Decor/Icon/Scaled.antt =====
-- decor.c: the icon's pixels, from those of its entry.
use sg_compositor.Prelude.{ℕ, ◌*◌, ◌≤◌, ◌≡◌, false, ◌⊎◌, List, Option, some, All, length}
use sg_compositor.Decor.Pixels.{alpha_of, channel}
use sg_compositor.Decor.Icon.{icon_px, Sums, Icon}

-- No channel of the sum is greater than the sum of the alphas.
abbrev IsFair : Sums → Type 0
IsFair s = (s.sr ≤ s.sa) × (s.sg ≤ s.sa) × (s.sb ≤ s.sa) × (s.sa ≤ 255 * s.cnt)

-- No channel is greater than the alpha.
abbrev pub IsPremultiplied : ℕ → Type 0
IsPremultiplied p =
    (channel 16 p ≤ alpha_of p) × (channel 8 p ≤ alpha_of p) × (channel 0 p ≤ alpha_of p)

-- The whole icon is there.
abbrev pub IsIcon : ℕ → Option (List ℕ) → Type 0
IsIcon n r = (ps : List ℕ) × (r ≡ some ps) × (length ps ≡ n) × All IsPremultiplied ps

-- Of the icon that a frame keeps: it is whole, once there is one.
abbrev pub IsWhole : Icon → Type 0
IsWhole i =
    (i.icon_tries ≤ 8)
    × ((i.has_icon ≡ false)
        ⊎ ((length i.pixels ≡ icon_px * icon_px) × All IsPremultiplied i.pixels))

abbrev pub Whole : Option Icon → Type 0
Whole r = (j : Icon) × (r ≡ some j) × IsWhole j
