-- ===== src/Lifecycle/Reconcile/Converge/Plans.antt =====
-- The planning: which plan the ids of a generation come to have.
use realm.Base.{
  String, List, [], ◌∷◌, Option, none, some, Bool, true, false, Bool-cases, Option-cases, inl, inr,
  ◌≡◌, refl, sym, ◌∙◌, if◌then◌else◌,
}
use realm.Base.Map
use realm.Base.Map.{Map}
use realm.Base.Map.Distinct.{Distinct, insert-Distinct, contains-get, get-contains}
use realm.Endpoint.{EndpointId, id_key, Socket, socket_key}
use realm.Lifecycle.Manager.{System}
use realm.Lifecycle.Reconcile.{Plan}
use realm.Lifecycle.Reconcile.Planning.{
  fail_all, against_incumbent, mark_socket, mark_sockets, mark_duplicates, see_plans, plan_deletes,
}

-- A property of the plans that survives one more invalid plan survives the marking.
module _ (sys : System) (inc : Map Socket EndpointId) (Q : Map EndpointId Plan → Type 0)
    (bad : (j : EndpointId) (e : String) (ps : Map EndpointId Plan)
      → Q ps
      → Q (Map.insert j (Plan.invalid e) ps)) where
  fail_all-kept :
      (e : String) (js : List EndpointId) (ps : Map EndpointId Plan) → Q ps → Q (fail_all e js ps)
  fail_all-kept e [] ps h = h
  fail_all-kept e (j ∷ js) ps h = fail_all-kept e js _ (bad j e ps h)

  if-kept : (b : Bool) (ps qs : Map EndpointId Plan) → Q ps → Q qs → Q (if b then ps else qs)
  if-kept true ps qs h k = h
  if-kept false ps qs h k = k

  against_incumbent-kept :
      (s : Socket) (j : EndpointId) (o : Option EndpointId) (ps : Map EndpointId Plan)
      → Q ps
      → Q (against_incumbent sys inc s j o ps)
  against_incumbent-kept s j none ps h = h
  against_incumbent-kept s j (some k) ps h = if-kept (id_key.keq j k) ps _ h (bad j _ ps h)

  mark_socket-kept :
      (s : Socket) (js : List EndpointId) (ps : Map EndpointId Plan)
      → Q ps
      → Q (mark_socket sys inc s js ps)
  mark_socket-kept s [] ps h = h
  mark_socket-kept s (j ∷ []) ps h = against_incumbent-kept s j (Map.get inc s) ps h
  mark_socket-kept s (j ∷ k ∷ js) ps h = fail_all-kept _ (j ∷ k ∷ js) ps h

  mark_sockets-kept :
      (seen : Map Socket (List EndpointId)) (ps : Map EndpointId Plan)
      → Q ps
      → Q (mark_sockets sys inc seen ps)
  unfolding mark_sockets
  mark_sockets-kept [] ps h = h
  mark_sockets-kept ((s, js) ∷ seen) ps h = mark_sockets-kept seen _ (mark_socket-kept s js ps h)

  mark_duplicates-kept : (ps : Map EndpointId Plan) → Q ps → Q (mark_duplicates sys inc ps)
  unfolding mark_duplicates
  mark_duplicates-kept ps h = mark_sockets-kept (see_plans ps []) ps h

pub insert-P :
    (P : Option Plan → Type 0) (id j : EndpointId) (plan : Plan) (ps : Map EndpointId Plan)
    → (id_key.keq j id ≡ true → P (some plan))
    → (id_key.keq j id ≡ false → P (Map.get ps id))
    → P (Map.get (Map.insert j plan ps) id)
insert-P P id j plan ps new old = elim (Bool-cases (id_key.keq j id)) [
  | inl s ↦ rw (Map.get-insert j id plan ps, s) (new s)
  | inr o ↦ rw (Map.get-insert j id plan ps, o) (old o)
]

if-P :
    {A : Type 0} (P : A → Type 0) (b : Bool) (x y : A)
    → (b ≡ true → P x)
    → (b ≡ false → P y)
    → P (if b then x else y)
if-P P true x y h k = h refl
if-P P false x y h k = k refl

pub mark-P :
    (sys : System) (inc : Map Socket EndpointId) (id : EndpointId) (P : Option Plan → Type 0)
    → ((e : String) → P (some (Plan.invalid e)))
    → (ps : Map EndpointId Plan) → P (Map.get ps id)
    → P (Map.get (mark_duplicates sys inc ps) id)
mark-P sys inc id P bad =
    mark_duplicates-kept sys inc (λ ps. P (Map.get ps id))
      (λ j e ps h. insert-P P id j _ ps (λ s. bad e) (λ o. h))

pub mark-Distinct :
    (sys : System) (inc : Map Socket EndpointId) (ps : Map EndpointId Plan)
    → Distinct ps
    → Distinct (mark_duplicates sys inc ps)
mark-Distinct sys inc =
    mark_duplicates-kept sys inc Distinct (λ j e ps h. insert-Distinct j (Plan.invalid e) ps h)

-- The deletes.
pub plan_deletes-Distinct :
    (js : List EndpointId) (ps : Map EndpointId Plan) → Distinct ps → Distinct (plan_deletes js ps)
unfolding plan_deletes
plan_deletes-Distinct [] ps h = h
plan_deletes-Distinct (j ∷ js) ps h =
    plan_deletes-Distinct js _
      (if-P Distinct (Map.contains ps j) ps _ (λ c. h) (λ c. insert-Distinct j Plan.delete ps h))

clash :
    (j id : EndpointId) (ps : Map EndpointId Plan) (plan : Plan)
    → id_key.keq j id ≡ true
    → Map.contains ps j ≡ false
    → Map.get ps id ≡ some plan
    → ⊥
clash j id ps plan s c h =
    let e : j ≡ id = (id_key.keq_iff j id).0 s in
    let n : Map.get ps j ≡ none = get-contains j ps c in
    let k : Map.get ps id ≡ none = rw (sym e) n in go (sym k ∙ h)
  where
    go : none ≡ some plan → ⊥
    go e = cc

pub plan_deletes-held :
    (js : List EndpointId) (ps : Map EndpointId Plan) (id : EndpointId) (plan : Plan)
    → Map.get ps id ≡ some plan
    → Map.get (plan_deletes js ps) id ≡ some plan
unfolding plan_deletes
plan_deletes-held [] ps id plan h = h
plan_deletes-held (j ∷ js) ps id plan h = plan_deletes-held js _ id plan (
    if-P (λ qs. Map.get qs id ≡ some plan) (Map.contains ps j) ps _ (λ c. h)
      (λ c.
        insert-P (λ o. o ≡ some plan) id j Plan.delete ps (λ s. absurd (clash j id ps plan s c h))
          (λ o. h)))

step_some :
    (j id : EndpointId) (ps : Map EndpointId Plan)
    → id_key.keq j id ≡ true
    → (plan : Plan) × (Map.get (if Map.contains ps j then ps else Map.insert j Plan.delete ps) id
        ≡ some plan)
step_some j id ps s = elim (Bool-cases (Map.contains ps j)) [
  | inl c ↦ elim (Option-cases (Map.get ps id)) [
    | inl n ↦ absurd (go (sym (contains-get id ps n) ∙ rw (sym ((id_key.keq_iff j id).0 s)) c))
    | inr (plan, h) ↦ (plan, rw c h)
  ]
  | inr c ↦ (Plan.delete, rw (c, Map.get-insert j id Plan.delete ps, s) refl)
]
  where
    go : false ≡ true → ⊥
    go e = cc

-- No held id is left without a plan.
pub plan_deletes-covers :
    {V : Type 0} (es : Map EndpointId V) (ps : Map EndpointId Plan) (id : EndpointId)
    → Map.get (plan_deletes (Map.keys es) ps) id ≡ none
    → Map.get es id ≡ none
unfolding plan_deletes Map.get
plan_deletes-covers [] ps id h = refl
plan_deletes-covers ((j, v) ∷ es) ps id h = elim (Bool-cases (id_key.keq j id)) [
  | inl s ↦
      let (plan, e) = step_some j id ps s in
      absurd (go plan (sym h ∙ plan_deletes-held (Map.keys es) _ id plan e))
  | inr o ↦ rw o (plan_deletes-covers es _ id h)
]
  where
    go : (plan : Plan) → none ≡ some plan → ⊥
    go plan e = cc

-- The id is not to serve.
abbrev pub IsOff : Option Plan → Type 0
IsOff none = Unit {0}
IsOff (some Plan.delete) = Unit {0}
IsOff (some (Plan.invalid e)) = Unit {0}
IsOff (some Plan.unchanged) = ⊥
IsOff (some (Plan.start b)) = ⊥
IsOff (some (Plan.replace b)) = ⊥

pub plan_deletes-IsOff :
    (js : List EndpointId) (ps : Map EndpointId Plan) (id : EndpointId)
    → IsOff (Map.get ps id)
    → IsOff (Map.get (plan_deletes js ps) id)
unfolding plan_deletes
plan_deletes-IsOff [] ps id h = h
plan_deletes-IsOff (j ∷ js) ps id h = plan_deletes-IsOff js _ id (
    if-P (λ qs. IsOff (Map.get qs id)) (Map.contains ps j) ps _ (λ c. h)
      (λ c. insert-P IsOff id j Plan.delete ps (λ s. tt) (λ o. h)))
