-- ===== src/Kube/Ready.antt =====
-- What the specification of a pod says, and when a pod is ready.
use lean_sandbox.Common.{
  ◌≡◌, refl, ◌≢◌, ◌↔◌, true, Option, none, some, List, [], ◌∷◌, arith, inl, inr, Bool-cases,
}
use lean_sandbox.Common.Text.{Bytes, text, str_eq}
use lean_sandbox.Common.Text.Laws.{str_eq_iff}
use lean_sandbox.Common.Dict.{Dict, bytes_eq, get, put, get-put}
use lean_sandbox.Config.{SandboxSpec, Quantity}
use lean_sandbox.Kube.{
  Condition, Pod, ready_condition, pod_ready, copy, resources_for, default_resources,
}

-- The first condition of the type `Ready` has the status `True`.
data FirstReady : List Condition → Type 0 where
  here :
      {c : Condition} {rest : List Condition}
      → c.type ≡ text "Ready"
      → c.status ≡ text "True"
      → FirstReady (c ∷ rest)
  later :
      {c : Condition} {rest : List Condition}
      → c.type ≢ text "Ready"
      → FirstReady rest
      → FirstReady (c ∷ rest)

ready_condition_hit :
    (c : Condition) (rest : List Condition)
    → c.type ≡ text "Ready"
    → ready_condition (c ∷ rest) ≡ true
    → c.status ≡ text "True"
unfolding ready_condition
ready_condition_hit c rest t e =
    ground (arith, str_eq_iff c.type (text "Ready"), str_eq_iff c.status (text "True"))

ready_condition_miss :
    (c : Condition) (rest : List Condition)
    → c.type ≢ text "Ready"
    → ready_condition (c ∷ rest) ≡ true
    → ready_condition rest ≡ true
unfolding ready_condition
ready_condition_miss c rest n e = ground (arith, str_eq_iff c.type (text "Ready"))

ready→FirstReady : (cs : List Condition) → ready_condition cs ≡ true → FirstReady cs
ready→FirstReady [] e = unfold ready_condition in absurd (cc e)
ready→FirstReady (c ∷ rest) e = elim (Bool-cases (str_eq c.type (text "Ready"))) [
  | inl h ↦
      let t = (str_eq_iff c.type (text "Ready")).0 h in here t (ready_condition_hit c rest t e)
  | inr h ↦
      let n : c.type ≢ text "Ready" = λ p. ground (arith, (str_eq_iff c.type (text "Ready")).1 p) in
      later n (ready→FirstReady rest (ready_condition_miss c rest n e))
]

FirstReady→ready : {cs : List Condition} → FirstReady cs → ready_condition cs ≡ true
unfolding ready_condition
FirstReady→ready (here {c} t s) =
    ground (arith, str_eq_iff c.type (text "Ready"), str_eq_iff c.status (text "True"))
FirstReady→ready (later {c} n f) =
    ground (arith, str_eq_iff c.type (text "Ready"), FirstReady→ready f)

-- A pod counts as ready exactly if it is running and its first condition of the type `Ready` has
-- the status `True`.
pod_ready_iff :
    (pod : Pod)
    → (pod_ready pod ≡ true) ↔ ((pod.phase ≡ text "Running") × FirstReady pod.conditions)
pod_ready_iff pod = (
  forth,
  λ h.
      unfold pod_ready in rw ((str_eq_iff pod.phase (text "Running")).1 h.0) (FirstReady→ready h.1),
)
  where
    forth : pod_ready pod ≡ true → (pod.phase ≡ text "Running") × FirstReady pod.conditions
    forth e = elim (Bool-cases (str_eq pod.phase (text "Running"))) [
      | inl h ↦ (
        (str_eq_iff pod.phase (text "Running")).0 h,
        ready→FirstReady pod.conditions (unfold pod_ready in rw h at e),
      )
      | inr h ↦ absurd (unfold pod_ready in ground arith)
    ]

-- No key stands in the map twice.
abbrev pub DistinctKeys : Dict Bytes Quantity → Type 0
DistinctKeys [] = Unit {0}
DistinctKeys ((k, v) ∷ d) = (get k d ≡ none) × DistinctKeys d

abbrev or_else : Option Quantity → Option Quantity → Option Quantity
or_else none o = o
or_else (some v) o = some v

get-copy :
    (k : Bytes) (dst src : Dict Bytes Quantity)
    → DistinctKeys src
    → get k (copy dst src) ≡ or_else (get k src) (get k dst)
unfolding copy get
get-copy k dst [] d = refl
get-copy k dst ((j, v) ∷ src) d =
    ground (arith, get-copy k (put j v dst) src d.1, get-put j k v dst, str_eq_iff j k, d.0)

-- A resource that the specification requests or limits keeps that amount; any other has the amount
-- of the defaults, where no resource is given twice.
get-resources_for :
    (spec : SandboxSpec) (k : Bytes)
    → DistinctKeys spec.resources.requests
    → DistinctKeys spec.resources.limits
    → (get k (resources_for spec).requests
        ≡ or_else (get k spec.resources.requests) (get k default_resources.requests))
      × (get k (resources_for spec).limits
          ≡ or_else (get k spec.resources.limits) (get k default_resources.limits))
unfolding resources_for
get-resources_for spec k r l = (get-copy k _ _ r, get-copy k _ _ l)
