-- ===== src/Releases/K8s.antt =====
-- core/releases/k8s_backend.py: whether a runtime spec can be represented for Kubernetes. The keys
-- that the records of a runtime spec always have need no check.
use xyn.Base.{List, [], ◌∷◌, is_empty, ◌=?◌, if◌then◌else◌}
use xyn.Base.Exec.{Result, ok, err}
use xyn.Releases.Spec.{Deployment, Service, RuntimeSpec}

-- The messages of `K8sValidationError`.
pub data K8sFault : Type 0 where
  kind_is_not_runtime deployment_without_containers service_without_ports : K8sFault

unfoldable pub check_deployments : List Deployment → Result K8sFault (Unit {0})
check_deployments [] = ok tt
check_deployments (deployment ∷ rest) =
    let checked = check_deployments rest in
    if is_empty deployment.containers then err deployment_without_containers else checked

unfoldable pub check_services : List Service → Result K8sFault (Unit {0})
check_services [] = ok tt
check_services (service ∷ rest) =
    let checked = check_services rest in
    if is_empty service.ports then err service_without_ports else checked

abbrev pub followed_by :
    Result K8sFault (Unit {0}) → Result K8sFault (Unit {0}) → Result K8sFault (Unit {0})
followed_by (ok tt) r = r
followed_by (err e) r = err e

-- `validate_runtime_spec`
unfoldable pub validate_runtime_spec : RuntimeSpec → Result K8sFault (Unit {0})
unfolding check_deployments check_services
validate_runtime_spec spec =
    if spec.kind =? "Runtime"
    then followed_by (check_deployments spec.deployments) (check_services spec.services)
    else err kind_is_not_runtime
