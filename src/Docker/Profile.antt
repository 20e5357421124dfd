-- ===== src/Docker/Profile.antt =====
-- What a container that a job makes is bounded by.
use ai_kodu_runner.Base.{
  ℕ, ◌*◌, Text, text, text_eq, Bool, true, not, none, some, [], ◌∷◌, ◌++◌, ok, ◌≡◌, refl, inl, inr,
  ap, sym, subst, ◌⊎◌,
}
use ai_kodu_runner.Config.{RunnerConfig}
use ai_kodu_runner.Protocol.{Resources, JobSpec, ServiceSpec}
use ai_kodu_runner.Policy.{clamp}
use ai_kodu_runner.Docker.Engine.{ContainerConfig, Host}
use ai_kodu_runner.Docker.Resources.{scale}
use ai_kodu_runner.Docker.Services.{service_container}
use ai_kodu_runner.Docker.Job.{Network, mode_of, job_host_config}

module _ (config : RunnerConfig) (host : Host) (spec : JobSpec) where
  -- A job that asks for it has the network of the bridge.
  abbrev pub IsBridged : Bool → Type 0
  IsBridged b = text_eq spec.network.mode (text "bridge") ≡ b

  -- Its memory, cpu count and processes are those of the clamped resources, and it gains no privilege.
  abbrev IsLimited : Resources → ContainerConfig → Type 0
  IsLimited resources c =
      (c.host_config.memory ≡ scale resources.memory_mb (1024 * 1024))
      × (c.host_config.nano_cpus ≡ host.to_nano_cpus resources.cpu)
      × (c.host_config.pids_limit ≡ resources.pids)
      × (c.host_config.security_opt ≡ text "no-new-privileges:true" ∷ [])

  -- The job's own container: its image, a prepared directory as the only thing of the host that it
  -- sees, no capability, a root file system that it writes only where it asks to, and no network where
  -- it asks for none.
  abbrev IsOwn : ContainerConfig → Type 0
  IsOwn c =
      ((directory : Text) × ((n : ℕ) × (host.prepare n ≡ ok directory)
          × (c.host_config.binds ≡ (directory ++ text ":/workspace") ∷ [])))
      × (c.image ≡ spec.image)
      × (c.host_config.cap_drop ≡ text "ALL" ∷ [])
      × (c.host_config.readonly_rootfs ≡ not spec.writable_rootfs)
      × (IsBridged true ⊎ (c.host_config.network_mode ≡ some (text "none")))

  -- A service's container, of a job with a network: it sees nothing of the host.
  abbrev IsService : ContainerConfig → Type 0
  IsService c = IsBridged true × (c.host_config.binds ≡ [])

  abbrev pub IsConfined : ContainerConfig → Type 0
  IsConfined c = IsLimited (clamp spec.resources config) c × (IsOwn c ⊎ IsService c)

  abbrev pub resources : Resources
  resources = clamp spec.resources config

  -- What the job's own container is given.
  abbrev pub IsPrepared : Text → Type 0
  IsPrepared directory = (n : ℕ) × (host.prepare n ≡ ok directory)

  abbrev pub IsFit : Network → Type 0
  IsFit network = IsBridged true ⊎ (network.id ≡ none)

  unbridged :
      (network : Network)
      → IsFit network
      → IsBridged true ⊎ (some (mode_of network) ≡ some (text "none"))
  unbridged network (inl bridged) = inl bridged
  unbridged network (inr missing) = inr (rw missing)

  pub service-IsConfined :
      (service : ServiceSpec)
      → IsBridged true
      → IsConfined (service_container config host spec.id resources service)
  unfolding service_container
  service-IsConfined service h = ((refl, refl, refl, refl), inr (h, refl))

  pub own-IsConfined :
      (c : ContainerConfig) (directory : Text) (network : Network)
      → IsPrepared directory
      → IsFit network
      → c.image ≡ spec.image
      → c.host_config ≡ job_host_config host directory (mode_of network) spec resources
      → IsConfined c
  unfolding job_host_config
  own-IsConfined c directory network (n, h) fit same given = (
    (
      ap (λ g. g.memory) given,
      ap (λ g. g.nano_cpus) given,
      ap (λ g. g.pids_limit) given,
      ap (λ g. g.security_opt) given,
    ),
    inl (
      (directory, (n, h, ap (λ g. g.binds) given)),
      same,
      ap (λ g. g.cap_drop) given,
      ap (λ g. g.readonly_rootfs) given,
      subst (λ mode. IsBridged true ⊎ (mode ≡ some (text "none")))
          (sym (ap (λ g. g.network_mode) given)) (unbridged network fit),
    ),
  )
