-- ===== src/Releases/Spec.antt =====
-- The documents of core/releases/compiler.py: a release spec as its JSON schema admits it, and the
-- runtime spec that it is compiled to. A key that may be missing is an Option, and a list or a
-- dictionary that may be missing is empty then.
use xyn.Base.{ℕ, String, Bool, Option, List}
use xyn.Base.Json.{Json}

-- A dictionary of JSON values.
abbrev pub Attributes : Type 0
Attributes = List (String × Json)

-- A network, a volume or a route: an object with a name.
pub record Entry : Type 0 where
  pub name : String
  pub attributes : Attributes

pub record Port : Type 0 where
  pub container_port : ℕ
  pub protocol : Option String
  pub name : Option String
  pub host_port : Option ℕ

pub record Mount : Type 0 where
  pub volume : String
  pub mount_path : String
  pub read_only : Option Bool

pub record Component : Type 0 where
  pub name : String
  pub build_image_name : Option String
  pub image : Option String
  pub ports : List Port
  pub env : List (String × String)
  pub healthcheck : Attributes
  pub volume_mounts : List Mount
  pub resources : Attributes
  pub replicas : Option ℕ
  pub depends_on : List String

pub record Backend : Type 0 where
  pub type : String
  pub options : Attributes

pub record ReleaseSpec : Type 0 where
  pub name : String
  pub namespace : String
  pub labels : List (String × String)
  pub backend : Backend
  pub networks : List Entry
  pub volumes : List Entry
  pub components : List Component
  pub routes : List Entry

pub record RuntimePort : Type 0 where
  pub container_port : ℕ
  pub protocol : String
  pub name : Option String
  pub published_port : Option ℕ

pub record VolumeMount : Type 0 where
  pub name : String
  pub mount_path : String
  pub read_only : Option Bool

pub record Container : Type 0 where
  pub name : String
  pub image : String
  pub ports : List RuntimePort
  pub env : List (String × String)
  pub healthcheck : Attributes
  pub volume_mounts : List VolumeMount
  pub resources : Attributes

pub record Deployment : Type 0 where
  pub name : String
  pub replicas : ℕ
  pub depends_on : List String
  pub labels : List (String × String)
  pub containers : List Container

pub record ServicePort : Type 0 where
  pub name : Option String
  pub port : ℕ
  pub target_port : ℕ
  pub protocol : String

pub record Service : Type 0 where
  pub name : String
  pub selector : List (String × String)
  pub ports : List ServicePort

pub record RuntimeSpec : Type 0 where
  pub api_version : String
  pub kind : String
  pub name : String
  pub namespace : String
  pub labels : List (String × String)
  pub release_id : String
  pub revision : ℕ
  pub backend : Backend
  pub networks : List Entry
  pub volumes : List Entry
  pub deployments : List Deployment
  pub services : List Service
  pub routes : List Entry
