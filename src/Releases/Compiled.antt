-- ===== src/Releases/Compiled.antt =====
-- What a compiled release consists of, and that the order of the source spec does not matter.
use mathlib.Core.List.{Permᴰ}
use xyn.Base.{
  ℕ, String, ◌≡◌, refl, sym, ap, ◌∙◌, true, false, inl, inr, Option, List, [], ◌∷◌, map, Bool-cases,
  arith, is_empty, is_empty-map,
}
use xyn.Base.Exec.{ok}
use xyn.Base.Table.{select}
use xyn.Base.Sort.Keys.{
  sort_on, IsSortedOn, sort_on-IsSortedOn, sort_on-sorted, sort_on-map, sort_on_reorder, HasKeys,
  select-IsSortedOn,
}
use xyn.Releases.Spec.{Entry, Component, ReleaseSpec}
use xyn.Releases.Compiler.{
  without_type, has_ports, deployment_of, service_of, compile_components,
  compile_release_to_runtime, service_port,
}
use xyn.Releases.K8s.{check_deployments, check_services, validate_runtime_spec}

compile_components-lem :
    (namespace name : String) (components : List Component)
    → compile_components namespace name components ≡ (
      map (deployment_of namespace name) components,
      map service_of (select has_ports components),
    )
unfolding compile_components select
compile_components-lem namespace name [] = refl
compile_components-lem namespace name (c ∷ cs) =
    rw (compile_components-lem namespace name cs)
      (elim (Bool-cases (has_ports c)) [ inl e ↦ rw e refl | inr e ↦ rw e refl ])

-- Sorting again what was made of sorted entries changes nothing.
pub sort_on-map_sorted :
    {A B : Type 0} (key : A → String) (key' : B → String) (f : A → B)
    → ((x : A) → key' (f x) ≡ key x)
    → (xs : List A) → IsSortedOn key xs
    → sort_on key' (map f xs) ≡ map f xs
sort_on-map_sorted key key' f keeps xs h =
    sort_on-map key key' f keeps xs ∙ ap (map f) (sort_on-sorted key xs h)

-- The compiled spec has exactly one deployment for each component, and exactly one service for each
-- component that has ports, both in the order of the components' names.
pub compile-parts :
    (spec : ReleaseSpec) (revision : ℕ) (release_id : Option String)
    → let components = sort_on (λ c. c.name) spec.components in
      let runtime = compile_release_to_runtime spec revision release_id in
      IsSortedOn (λ c. c.name) components
      × (runtime.deployments ≡ map (deployment_of spec.namespace spec.name) components)
      × (runtime.services ≡ map service_of (select has_ports components))
unfolding compile_release_to_runtime deployment_of service_of
compile-parts spec revision release_id =
    let components : List Component = sort_on (λ c. c.name) spec.components in
    let sorted : IsSortedOn (λ (c : Component). c.name) components =
      sort_on-IsSortedOn (λ c. c.name) spec.components in
    (
      sorted,
      ap (λ r. sort_on (λ d. d.name) r.0)
            (compile_components-lem spec.namespace spec.name components)
          ∙ sort_on-map_sorted (λ c. c.name) (λ d. d.name) (deployment_of spec.namespace spec.name)
              (λ c. refl) components sorted,
      ap (λ r. sort_on (λ d. d.name) r.1)
            (compile_components-lem spec.namespace spec.name components)
          ∙ sort_on-map_sorted (λ c. c.name) (λ d. d.name) service_of (λ c. refl)
              (select has_ports components)
              (select-IsSortedOn has_ports (λ c. c.name) components sorted),
    )

-- Networks and volumes lose their `type` wherever they stand.
sort_on-without_type :
    (xs ys : List Entry)
    → Permᴰ xs ys
    → HasKeys (λ e. e.name) xs
    → sort_on (λ e. e.name) (map without_type xs) ≡ sort_on (λ e. e.name) (map without_type ys)
unfolding without_type
sort_on-without_type xs ys p h =
    sort_on-map (λ e. e.name) (λ e. e.name) without_type (λ e. refl) xs
    ∙ ap (map without_type) (sort_on_reorder (λ e. e.name) xs ys p h)
    ∙ sym (sort_on-map (λ e. e.name) (λ e. e.name) without_type (λ e. refl) ys)

-- The order in which a release spec lists its components, networks, volumes and labels does not show
-- in the compiled spec, if no two of a list have the same name.
pub compile-reorder :
    (spec : ReleaseSpec) (revision : ℕ) (release_id : Option String)
    → (components : List Component) (networks volumes : List Entry)
      (labels : List (String × String))
    → Permᴰ spec.components components
    → Permᴰ spec.networks networks
    → Permᴰ spec.volumes volumes
    → Permᴰ spec.labels labels
    → HasKeys (λ c. c.name) spec.components
    → HasKeys (λ e. e.name) spec.networks
    → HasKeys (λ e. e.name) spec.volumes
    → HasKeys (λ l. l.0) spec.labels
    → compile_release_to_runtime spec revision release_id
      ≡ compile_release_to_runtime
          (record spec {
            components = components;
            networks = networks;
            volumes = volumes;
            labels = labels;
          })
          revision
          release_id
unfolding compile_release_to_runtime
compile-reorder spec revision release_id cs ns vs ls pc pn pv pl kc kn kv kl =
    rw
      (
        sort_on_reorder (λ c. c.name) spec.components cs pc kc,
        sort_on-without_type spec.networks ns pn kn,
        sort_on-without_type spec.volumes vs pv kv,
        sort_on_reorder (λ l. l.0) spec.labels ls pl kl,
      )
      refl

check_deployments-compiled :
    (namespace name : String) (components : List Component)
    → check_deployments (map (deployment_of namespace name) components) ≡ ok tt
unfolding check_deployments deployment_of
check_deployments-compiled namespace name [] = refl
check_deployments-compiled namespace name (c ∷ cs) = check_deployments-compiled namespace name cs

service_of-ports : (c : Component) → has_ports c ≡ true → is_empty (service_of c).ports ≡ false
unfolding has_ports service_of
service_of-ports c h = ground (arith, is_empty-map service_port c.ports)

check_services-compiled :
    (components : List Component)
    → check_services (map service_of (select has_ports components)) ≡ ok tt
unfolding check_services select
check_services-compiled [] = refl
check_services-compiled (c ∷ cs) = elim (Bool-cases (has_ports c)) [
  | inl e ↦ rw e (rw (service_of-ports c e) (check_services-compiled cs))
  | inr e ↦ rw e (check_services-compiled cs)
]

-- Every compiled release can be represented for Kubernetes.
pub validate-compile :
    (spec : ReleaseSpec) (revision : ℕ) (release_id : Option String)
    → validate_runtime_spec (compile_release_to_runtime spec revision release_id) ≡ ok tt
unfolding validate_runtime_spec
validate-compile spec revision release_id =
    let parts = compile-parts spec revision release_id in
    let kind : (compile_release_to_runtime spec revision release_id).kind ≡ "Runtime" =
      unfold compile_release_to_runtime in refl in
    rw (kind, parts.1, parts.2)
      (rw
        (
          check_deployments-compiled spec.namespace spec.name
              (sort_on (λ c. c.name) spec.components),
          check_services-compiled (sort_on (λ c. c.name) spec.components),
        )
        refl)
