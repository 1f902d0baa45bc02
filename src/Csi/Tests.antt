-- ===== src/Csi/Tests.antt =====
-- Two passes of the collector over a node with the images a and b, of which b has a volume.
use giosk.Prelude.{◌≡◌, refl, true, false, Option, none, some, List, [], ◌∷◌, String, All}
use giosk.Csi.Sweep.{Kind, has, Volume, live, Env, step, sweep_ids, swept, sweep}
use giosk.Csi.Sweep.Twice.{TwiceOrphan, sweep-TwiceOrphan}
use giosk.Csi.Sweep.Collects.{listed_env}

abbrev volumes : List (Option Volume)
volumes = some (record { driver = "csi.giosk.io"; handle = "b" }) ∷ none ∷ []

abbrev images : List String
images = "a" ∷ "b" ∷ []

abbrev env : Env
env = listed_env volumes images [] (λ key. true)

pass-done : (sweep env []).0 ≡ true
unfolding sweep
pass-done = refl

second-pass-asks : (sweep env (sweep env []).1.next).1.asked ≡ (Kind.image, "a") ∷ []
unfolding sweep swept sweep_ids step live has
second-pass-asks = refl

sweep-TwiceOrphan_example :
    All (TwiceOrphan volumes volumes) (sweep env (sweep env []).1.next).1.asked
sweep-TwiceOrphan_example = sweep-TwiceOrphan env env [] volumes volumes refl pass-done refl

orphan-a : live "a" volumes ≡ false
unfolding live
orphan-a = refl

fresh-a : has (Kind.image, "a") [] ≡ false
unfolding has
fresh-a = refl
