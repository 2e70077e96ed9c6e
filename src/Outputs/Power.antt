-- ===== src/Outputs/Power.antt =====
-- output.c: display power.
use sg_compositor.Prelude.{
  ℕ, Bool, true, not, ◌||◌, List, [], ◌∷◌, map, Option, some, arith, ◌≡◌, All, if◌then◌else◌,
  ==_iff,
}
use sg_compositor.World.{Output, Server, Host}
use sg_compositor.Outputs.{output_set_power, output_power_wake}

-- Display power, asked for on or off, leaves the output that Remote Desktop shows on, if it was.
pub output_set_power-shown :
    (h : Host) (on : Bool) (o : Output)
    → o.enabled ≡ true
    → (output_set_power h true (some o.id) on o).enabled ≡ true
unfolding output_set_power
output_set_power-shown h on o lit = ground (arith, ==_iff o.id o.id)

-- An output is on, or display power could not turn it on.
abbrev pub is_awake : Host → Output → Bool
is_awake h o = not (h.commit_ok o.id true) || not o.powered_off

awake_one :
    (h : Host) (remote : Bool) (shown : Option ℕ) (o : Output)
    → is_awake h (if o.powered_off then output_set_power h remote shown true o else o) ≡ true
unfolding output_set_power
awake_one h remote shown o = ground arith

-- After output_power_wake no output is off that display power turned off, but where the commit
-- that turns it on fails.
pub output_power_wake-awake :
    (h : Host) (s : Server) → All (λ o. is_awake h o ≡ true) (output_power_wake h s).outputs
unfolding output_power_wake
output_power_wake-awake h s = wake s.outputs
  where
    wake :
        (os : List Output)
        → All
            (λ o. is_awake h o ≡ true)
            (map
              (λ o. if o.powered_off then output_set_power h s.remote s.remote_output true o else o)
              os)
    wake [] = tt
    wake (o ∷ os) = (awake_one h s.remote s.remote_output o, wake os)
