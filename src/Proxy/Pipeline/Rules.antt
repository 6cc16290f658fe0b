-- ===== src/Proxy/Pipeline/Rules.antt =====
-- How a property of a flow passes through the chain of addons.
use gowebfilter.Base.{◌≡◌, refl, some, List, [], ◌∷◌}
use gowebfilter.Proxy.Flow.{FlowContext}
use gowebfilter.Proxy.Pipeline.{Addon, Hook, run_hook, run_request}

-- A hook returns normally, with a flow of which `Q` holds, from any flow of which `P` holds.
abbrev pub Keeps : (FlowContext → Type 0) → Hook → Type 0
Keeps P h = (fc : FlowContext) → P fc → (fc' : FlowContext) × (h fc ≡ some fc') × P fc'

abbrev pub AllKeep : (FlowContext → Type 0) → List Addon → Type 0
AllKeep P [] = Unit
AllKeep P (a ∷ rest) = Keeps P (run_hook a.on_request) × AllKeep P rest

-- A property that every request hook keeps is kept by the chain, which returns normally.
pub run_request-Keeps :
    (P : FlowContext → Type 0) (addons : List Addon)
    → AllKeep P addons
    → Keeps P (run_request addons)
unfolding run_request
run_request-Keeps P [] k fc p = (fc, refl, p)
run_request-Keeps P (a ∷ rest) (k, ks) fc p =
    let (fc', e, p') = k fc p in
    let (last, e', q) = run_request-Keeps P rest ks fc' p' in (last, rw e e', q)
