-- ===== src/Lb/Rotation.antt =====
-- realm_lb/src/round_robin.rs. The lock is held for the whole of `next`, so a call is one step.
pub mod Pick
pub mod Greatest
mod Tests
use realm.Base.{
  ℕ, zero, suc, ◌+◌, ltb, leb, if◌then◌else◌, List, [], ◌∷◌, Option, none, some, length, true,
  false,
}
use realm.Base.Int.{ℤ, pos, ltb_ℤ, add_i16, sub_i16}
use realm.Lb.{Token, RrNode, RoundRobin}

-- The nodes of `new`, from index `i` on.
unfoldable pub fresh_nodes : ℕ → List ℕ → List RrNode
fresh_nodes i [] = []
fresh_nodes i (w ∷ ws) =
    record { cw = pos 0; ew = w; weight = w; token = i } ∷ fresh_nodes (i + 1) ws

-- `none` is the failed assertion on the number of weights.
unfoldable pub new : List ℕ → Option RoundRobin
unfolding fresh_nodes
new ws =
    if leb (length ws) 255
    then some (
        if leb (length ws) 1
        then record { nodes = []; total = length ws }
        else record { nodes = fresh_nodes 0 ws; total = length ws })
    else none

-- What the loop does to one node.
unfoldable pub advance : RrNode → RrNode
advance p = record p {
  cw = add_i16 p.cw (pos p.ew);
  ew = if ltb p.ew p.weight then p.ew + 1 else p.ew;
}

-- The loop over the nodes: the total weight, the nodes, and the index of the best one so far with
-- its current weight.
pub record Scan : Type 0 where
  pub tw : ℤ
  pub nodes : List RrNode
  pub best : Option (ℕ × ℤ)

abbrev pub better : Option (ℕ × ℤ) → ℕ → ℤ → Option (ℕ × ℤ)
better none i cw = some (i, cw)
better (some (b, x)) i cw = if ltb_ℤ x cw then some (i, cw) else some (b, x)

unfoldable pub scan : ℕ → ℤ → Option (ℕ × ℤ) → List RrNode → Scan
unfolding advance
scan i tw best [] = record { tw = tw; nodes = []; best = best }
scan i tw best (p ∷ ps) =
    let p' = advance p in
    let rest = scan (i + 1) (add_i16 tw (pos p.ew)) (better best i p'.cw) ps in
    record { tw = rest.tw; nodes = p' ∷ rest.nodes; best = rest.best }

-- `x.cw -= tw; x.token` at the index of the best node.
unfoldable pub charge : ℕ → ℤ → List RrNode → List RrNode × Option Token
charge i tw [] = ([], none)
charge zero tw (p ∷ ps) = (record p { cw = sub_i16 p.cw tw } ∷ ps, some p.token)
charge (suc i) tw (p ∷ ps) = let (rest, t) = charge i tw ps in (p ∷ rest, t)

unfoldable pub choose : ℤ → List RrNode → Option (ℕ × ℤ) → List RrNode × Option Token
unfolding charge
choose tw ps none = (ps, none)
choose tw ps (some (b, cw)) = charge b tw ps

unfoldable pub next : RoundRobin → RoundRobin × Option Token
unfolding scan choose
next r = elim (leb r.total 1) [
  | true ↦ (r, some 0)
  | false ↦
      let s = scan 0 (pos 0) none r.nodes in
      let (nodes, token) = choose s.tw s.nodes s.best in (record r { nodes = nodes }, token)
]
