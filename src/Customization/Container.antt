-- ===== src/Customization/Container.antt =====
-- operator/pkg/customization/container.go: the overlay of a container, built by options in turn.
-- What the program only passes on (resources, mounts, the rest of a security context) is a text.
use konflux_ci.Prelude.{
  ℕ, String, List, [], ◌∷◌, ◌++◌, Option, none, some, not, ◌==◌, string_eq, keep_if, if◌then◌else◌,
}

-- corev1.EnvVar
pub record EnvVar : Type 0 where
  pub name : String
  pub value : String
  pub value_from : Option String

abbrev pub env_var : String → String → EnvVar
env_var name value = record { name = name; value = value; value_from = none }

abbrev pub name_of : EnvVar → String
name_of e = e.name

-- corev1.SecurityContext: the user, and all else.
pub record SecurityContext : Type 0 where
  pub run_as_user : Option ℕ
  pub rest : String

-- The fields of corev1.Container that the overlays write.
pub record Container : Type 0 where
  pub name : String
  pub image : String
  pub args : List String
  pub env : List EnvVar
  pub resources : String
  pub volume_mounts : List String
  pub security_context : Option SecurityContext

abbrev pub empty_container : Container
empty_container = record {
  name = "";
  image = "";
  args = [];
  env = [];
  resources = "";
  volume_mounts = [];
  security_context = none;
}

pub record DeploymentContext : Type 0 where
  pub replicas : ℕ

-- operator/api/v1alpha1/common_types.go
pub record ContainerSpec : Type 0 where
  pub resources : Option String
  pub env : List EnvVar

abbrev pub ContainerOption : Type 0
ContainerOption = Container → DeploymentContext → Container

unfoldable pub apply_options : DeploymentContext → List ContainerOption → Container → Container
apply_options ctx [] c = c
apply_options ctx (opt ∷ opts) c = apply_options ctx opts (opt c ctx)

unfoldable pub new_container_overlay : DeploymentContext → List ContainerOption → Container
unfolding apply_options
new_container_overlay ctx opts = apply_options ctx opts empty_container

unfoldable pub from_container_spec : Option ContainerSpec → ContainerOption
from_container_spec none c ctx = c
from_container_spec (some spec) c ctx = record c {
  resources = elim spec.resources [ none ↦ c.resources | some r ↦ r ];
  env = c.env ++ spec.env;
}

unfoldable pub with_args : List String → ContainerOption
with_args args c ctx = record c { args = c.args ++ args }

unfoldable pub with_env : List EnvVar → ContainerOption
with_env env c ctx = record c { env = c.env ++ env }

unfoldable pub with_env_override : String → String → ContainerOption
with_env_override name value c ctx = record c {
  env = keep_if (λ e. not (name_of e == name)) c.env ++ env_var name value ∷ [];
}

unfoldable pub without_env : String → ContainerOption
without_env name c ctx = record c { env = keep_if (λ e. not (name_of e == name)) c.env }

unfoldable pub with_resources : String → ContainerOption
with_resources resources c ctx = record c { resources = resources }

unfoldable pub with_volume_mounts : List String → ContainerOption
with_volume_mounts mounts c ctx = record c { volume_mounts = c.volume_mounts ++ mounts }

unfoldable pub with_security_context : Option SecurityContext → ContainerOption
with_security_context sc c ctx = record c { security_context = sc }

unfoldable pub with_run_as_user : ℕ → ContainerOption
with_run_as_user uid c ctx = record c {
  security_context = elim c.security_context [
    | none ↦ some (record { run_as_user = some uid; rest = "" })
    | some sc ↦ some (record sc { run_as_user = some uid })
  ];
}

unfoldable pub with_image : String → ContainerOption
with_image image c ctx = record c { image = image }

unfoldable pub with_optional_env_override : String → String → ContainerOption
unfolding with_env_override
with_optional_env_override name value c ctx =
    if value == "" then c else with_env_override name value c ctx
