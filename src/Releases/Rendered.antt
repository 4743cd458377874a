-- ===== src/Releases/Rendered.antt =====
-- The compose file of a compiled release.
use xyn.Base.{ℕ, String, ◌≡◌, refl, ap, ◌∙◌, Option, some, List, [], ◌∷◌, ◌++◌, map}
use xyn.Base.Text.Format.{concat}
use xyn.Base.Sort.Keys.{sort_on, sort_on-IsSortedOn, sort_on-sorted, sort_on-map}
use xyn.Releases.Spec.{Entry, Component, Deployment, ReleaseSpec, RuntimeSpec}
use xyn.Releases.Compiler.{without_type, container_of, deployment_of, compile_release_to_runtime}
use xyn.Releases.Compiled.{sort_on-map_sorted, compile-parts}
use xyn.Releases.Renderer.{
  flat, service_lines, deployments_lines, section_lines, file_lines, compose_lines,
}

deployments_lines-compiled :
    (runtime : RuntimeSpec) (networks : List String) (namespace name : String)
    (components : List Component)
    → deployments_lines runtime networks (map (deployment_of namespace name) components)
      ≡ some (
          flat
            (λ c.
              service_lines runtime networks
                (deployment_of namespace name c)
                (container_of namespace name c))
            components)
unfolding deployments_lines deployment_of flat
deployments_lines-compiled runtime networks namespace name [] = refl
deployments_lines-compiled runtime networks namespace name (c ∷ cs) =
    rw (deployments_lines-compiled runtime networks namespace name cs) refl

names_without_type :
    (es : List Entry) → map (λ e. e.name) (map without_type es) ≡ map (λ e. e.name) es
unfolding without_type
names_without_type [] = refl
names_without_type (e ∷ es) = ap (λ ns. e.name ∷ ns) (names_without_type es)

-- The names of networks or volumes come out sorted, whatever was dropped of them.
names-sorted_twice :
    (es : List Entry)
    → map (λ e. e.name) (sort_on (λ e. e.name) (sort_on (λ e. e.name) (map without_type es)))
      ≡ map (λ e. e.name) (sort_on (λ e. e.name) es)
names-sorted_twice es =
    ap (map (λ e. e.name)) (
      sort_on-sorted (λ e. e.name) (sort_on (λ e. e.name) (map without_type es))
        (sort_on-IsSortedOn (λ e. e.name) (map without_type es)))
    ∙ ap (map (λ e. e.name))
        (sort_on-map (λ e. e.name) (λ e. e.name) without_type (λ e. unfold without_type in refl) es)
    ∙ names_without_type (sort_on (λ e. e.name) es)

-- The file of any spec, from the names and the deployments that the renderer sorts.
compose_lines-of :
    (runtime : RuntimeSpec) (networks volumes services : List String)
    (deployments : List Deployment)
    → map (λ e. e.name) (sort_on (λ e. e.name) runtime.networks) ≡ networks
    → map (λ e. e.name) (sort_on (λ e. e.name) runtime.volumes) ≡ volumes
    → sort_on (λ d. d.name) runtime.deployments ≡ deployments
    → deployments_lines runtime networks deployments ≡ some services
    → compose_lines runtime
      ≡ some (
          concat ("name: " ∷ runtime.namespace ∷ "_" ∷ runtime.name ∷ [])
          ∷ ""
          ∷ "services:"
          ∷ (services ++ section_lines "volumes:" volumes ++ section_lines "networks:" networks))
unfolding compose_lines file_lines
compose_lines-of runtime networks volumes services deployments n v d l =
    (λ i. file_lines runtime (n i) (v i) (deployments_lines runtime (n i) (d i)))
    ∙ ap (file_lines runtime networks volumes) l

-- The lines of the compose file of a compiled release are its name, one block for each component in
-- the order of their names, and the sorted names of the volumes and of the networks.
pub compose_lines-compile :
    (spec : ReleaseSpec) (revision : ℕ) (release_id : Option String)
    → let runtime = compile_release_to_runtime spec revision release_id in
      let networks = map (λ e. e.name) (sort_on (λ e. e.name) spec.networks) in
      let volumes = map (λ e. e.name) (sort_on (λ e. e.name) spec.volumes) in
      compose_lines runtime
      ≡ some (
          concat ("name: " ∷ spec.namespace ∷ "_" ∷ spec.name ∷ [])
          ∷ ""
          ∷ "services:"
          ∷ (flat
                (λ c.
                  service_lines runtime networks
                    (deployment_of spec.namespace spec.name c)
                    (container_of spec.namespace spec.name c))
                (sort_on (λ c. c.name) spec.components)
              ++ section_lines "volumes:" volumes
              ++ section_lines "networks:" networks))
compose_lines-compile spec revision release_id =
    let components : List Component = sort_on (λ c. c.name) spec.components in
    let parts = compile-parts spec revision release_id in
    unfold compile_release_to_runtime in
    compose_lines-of (compile_release_to_runtime spec revision release_id) _ _ _
      (map (deployment_of spec.namespace spec.name) components) (names-sorted_twice spec.networks)
      (names-sorted_twice spec.volumes)
      (ap (sort_on (λ d. d.name)) parts.1
        ∙ sort_on-map_sorted (λ c. c.name) (λ d. d.name) (deployment_of spec.namespace spec.name)
            (λ c. unfold deployment_of in refl) components parts.0)
      (deployments_lines-compiled (compile_release_to_runtime spec revision release_id) _
        spec.namespace spec.name components)
