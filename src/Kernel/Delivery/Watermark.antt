-- ===== src/Kernel/Delivery/Watermark.antt =====
-- The watermark latch of src/kernel.rs.
use trouper.Prelude.{ℕ, ◌≡◌, refl, Bool, ◌&&◌, List, [], ◌∷◌, arith, ltb, leb, if◌then◌else◌}
use trouper.Kernel.Delivery.{latch}

-- The facts that the latch fires at a run of depths.
abbrev pub fires_at : ℕ → Bool → List ℕ → List ℕ
fires_at mark fired [] = []
fires_at mark fired (depth ∷ depths) =
    let rest = fires_at mark (latch mark fired depth).0 depths in
    if (latch mark fired depth).1 then depth ∷ rest else rest

-- The depths above the mark that follow a depth that was not, the first one following `previous`.
abbrev pub crossings : ℕ → ℕ → List ℕ → List ℕ
crossings mark previous [] = []
crossings mark previous (depth ∷ depths) =
    let rest = crossings mark depth depths in
    if leb previous mark && ltb mark depth then depth ∷ rest else rest

-- One fact to each up-crossing: over any run of depths, the latch fires at those above the mark whose
-- predecessor was at or below it, and at no other, if it starts in step with the depth before.
pub fires_at-crossings :
    (mark previous : ℕ) (depths : List ℕ)
    → fires_at mark (ltb mark previous) depths ≡ crossings mark previous depths
unfolding latch
fires_at-crossings mark previous [] = refl
fires_at-crossings mark previous (depth ∷ depths) =
    ground (arith, fires_at-crossings mark depth depths)
