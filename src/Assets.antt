-- ===== src/Assets.antt =====
-- `internal/infrastructure/assets` and application/assets.go, which passes on to it. The files of the
-- host and the embedded script are parameters.
use orbit_api_gateway.Base.{String, Option}
use orbit_api_gateway.Http.Routes.{Assets}

-- `os.ReadFile`, `none` where it fails; `filepath.Join` of two parts; and the embedded install.sh.
pub record Disk : Type 0 where
  pub read_file : String → Option String
  pub join : String → String → String
  pub install_sh : String

-- `Files`
pub record Files : Type 0 where
  pub root : String

-- `New`
unfoldable pub new_files : String → Files
new_files root = record { root = root }

module _ (disk : Disk) where
  -- `Files.InstallScript`
  unfoldable pub install_script : Files → String
  install_script f = disk.install_sh

  -- `Files.OpenAPISpec`
  unfoldable pub openapi_spec : Files → Option String
  openapi_spec f = disk.read_file (disk.join f.root "openapi.yaml")

  -- `Files.Manifest`
  unfoldable pub manifest : Files → Option String
  manifest f = disk.read_file (disk.join f.root "manifest.json")

  -- What the routes serve, read through the methods of the service.
  unfoldable pub served_assets : Files → Assets
  unfolding install_script openapi_spec manifest
  served_assets f = record {
    install_script = install_script f;
    openapi_spec = openapi_spec f;
    manifest = manifest f;
  }
