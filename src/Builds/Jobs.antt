-- ===== src/Builds/Jobs.antt =====
-- The Jobs of a build (cmd/builder/main.go): its configuration, and the Job builders.
use ai_lab.Prelude.{
  ℕ, Bool, Option, none, some, List, [], ◌∷◌, ◌++◌, ◌==◌, if◌then◌else◌, Text, txt,
}

pub record BuildConfig : Type 0 where
  pub namespace : Text
  pub registry : Text
  pub kaniko_image : Text
  pub trivy_enabled : Bool
  pub trivy_image : Text
  pub trivy_severity : Text
  pub cosign_enabled : Bool
  pub cosign_image : Text
  pub cosign_secret : Text
  pub cosign_key_path : Text

-- The parts of the batch Job that the builder sets.
pub record BuildJob : Type 0 where
  pub name : Text
  pub namespace : Text
  pub container : Text
  pub image : Text
  pub args : List Text
  pub key_secret : Option Text
  pub parallelism : ℕ
  pub completions : ℕ
  pub backoff_limit : ℕ

abbrev pub one_shot_job : Text → Text → Text → Text → List Text → Option Text → BuildJob
one_shot_job name namespace container image args key_secret = record {
  name = name;
  namespace = namespace;
  container = container;
  image = image;
  args = args;
  key_secret = key_secret;
  parallelism = 1;
  completions = 1;
  backoff_limit = 0;
}

-- strings.TrimPrefix
abbrev pub trim_prefix_from : Text → Text → Text → Text
trim_prefix_from [] s all = s
trim_prefix_from (c ∷ p) [] all = all
trim_prefix_from (c ∷ p) (d ∷ s) all =
    let rest = trim_prefix_from p s all in if c == d then rest else all

abbrev pub trim_prefix : Text → Text → Text
trim_prefix p s = trim_prefix_from p s s

unfoldable pub build_kaniko_job : Text → Text → Text → Text → Text → BuildJob
build_kaniko_job name namespace kaniko_image source_url destination =
    one_shot_job name namespace (txt "kaniko") kaniko_image
      ((txt "--context=" ++ trim_prefix (txt "git+") source_url)
        ∷ (txt "--destination=" ++ destination)
        ∷ txt "--cache=false"
        ∷ txt "--insecure"
        ∷ txt "--skip-tls-verify"
        ∷ [])
      none

unfoldable pub build_trivy_job : Text → Text → Text → Text → Text → BuildJob
build_trivy_job name namespace trivy_image severity image =
    one_shot_job name namespace (txt "trivy") trivy_image
      (txt "image"
        ∷ txt "--severity"
        ∷ severity
        ∷ txt "--ignore-unfixed"
        ∷ txt "--exit-code"
        ∷ txt "1"
        ∷ txt "--no-progress"
        ∷ image
        ∷ [])
      none

unfoldable pub build_cosign_job : Text → Text → Text → Text → Text → Text → BuildJob
build_cosign_job name namespace cosign_image secret_name key_path image =
    one_shot_job name namespace (txt "cosign") cosign_image
      (txt "sign" ∷ txt "--yes" ∷ txt "--key" ∷ key_path ∷ image ∷ []) (some secret_name)
