-- ===== src/Config/Options/Start.antt =====
-- cmd/dinosaur/main.go: the start of the program, from the command line to the configuration that
-- the server starts with.
use mathlib.Core.Path.{subst}
use dinosaur_dns.Common.{
  ℕ, ◌≡◌, ◌≢◌, false, refl, sym, ◌∙◌, List, [], ◌∷◌, ◌++◌, Str, Bool-cases, inl, inr, arith,
}
use dinosaur_dns.Common.Results.{Result, ok, fail, ◌>>=◌, Holds, Holds-self, >>=-Holds}
use dinosaur_dns.Stats.{ConnectionLog}
use dinosaur_dns.Config.{UserConfig}
use dinosaur_dns.Config.Options.{Flags, Quit, file_config, get_user_config}
use dinosaur_dns.Config.Options.Merged.{IsMerged, or_given_ne, merge_flags-IsMerged}
use dinosaur_dns.Config.Startup.{
  Environment, ServerConfig, Stop, resolvers_of, new_proxy_config, get_proxy_config,
}
use dinosaur_dns.Config.Startup.Stages.{default_dns64_prefix-Is96}
use dinosaur_dns.Config.Startup.Ready.{IsReady, get_proxy_config-IsReady}

-- How the program ends before the server starts
pub data Failure : Type 0 where
  at_options : Quit → Failure
  at_config : Stop → Failure

options_step : Result Quit UserConfig → Result Failure UserConfig
options_step (ok uc) = ok uc
options_step (fail e) = fail (at_options e)

config_step : Result Stop ServerConfig → Result Failure ServerConfig
config_step (ok config) = ok config
config_step (fail e) = fail (at_config e)

config_step-Holds :
    (P : ServerConfig → Type 0) (r : Result Stop ServerConfig) → Holds P r → Holds P (config_step r)
unfolding config_step
config_step-Holds P (ok config) h = h
config_step-Holds P (fail e) h = tt

module _ (env : Environment) (read_file : Str → Result Str (List ℕ))
    (unmarshal : List ℕ → UserConfig → Result Str UserConfig) where
  -- main, up to StartServer
  unfoldable pub start : ConnectionLog → ℕ → Flags → Result Failure ServerConfig
  unfolding options_step config_step
  start zero_item now flags = do
    uc ← options_step (get_user_config read_file unmarshal flags)
    config_step (get_proxy_config env now uc (new_proxy_config zero_item))

  -- What holds of every configuration that GetProxyConfig makes
  pub start-Holds :
      (P : ServerConfig → Type 0) (zero_item : ConnectionLog) (now : ℕ) (flags : Flags)
      → ((uc : UserConfig) → Holds P (get_proxy_config env now uc (new_proxy_config zero_item)))
      → Holds P (start zero_item now flags)
  unfolding start
  start-Holds P zero_item now flags every =
      let got = get_user_config read_file unmarshal flags in
      >>=-Holds _ (options_step got) _ (Holds-self _) (λ uc _. config_step-Holds P _ (every uc))

resolvers_of_ne : (upstream : List Str) → upstream ≢ [] → resolvers_of upstream ≢ []
unfolding resolvers_of
resolvers_of_ne [] given e = given refl
resolvers_of_ne (v ∷ upstream) given e = absurd (ground arith)

-- A configuration that the server starts with.
pub record IsStarted (env : Environment) (read_file : Str → Result Str (List ℕ))
    (unmarshal : List ℕ → UserConfig → Result Str UserConfig) (zero_item : ConnectionLog) (now : ℕ)
    (flags : Flags) (config : ServerConfig) : Type 0 where
  pub no_help : flags.help ≡ false
  pub file : UserConfig
  pub read : file_config read_file unmarshal flags.config ≡ ok file
  pub uc : UserConfig
  pub merged : IsMerged flags.given file uc
  pub made : get_proxy_config env now uc (new_proxy_config zero_item) ≡ ok config
  pub ready : IsReady env uc (new_proxy_config zero_item) config
  pub has_upstream : config.proxy.upstream ≢ []

module _ (env : Environment) (read_file : Str → Result Str (List ℕ))
    (unmarshal : List ℕ → UserConfig → Result Str UserConfig) where
  -- What a merged configuration comes from.
  Merged : Flags → UserConfig → Type 0
  Merged flags uc =
      (flags.help ≡ false)
      × ((file : UserConfig) × (file_config read_file unmarshal flags.config ≡ ok file)
          × IsMerged flags.given file uc)

  get_user_config-Merged :
      (flags : Flags) → Holds (Merged flags) (get_user_config read_file unmarshal flags)
  unfolding get_user_config Merged
  get_user_config-Merged flags = elim (Bool-cases flags.help) [
    | inl e ↦ rw e tt
    | inr e ↦
        rw (e, get_user_config)
          (>>=-Holds _ (file_config read_file unmarshal flags.config) _ (Holds-self _)
            (λ file read. (refl, (file, read, merge_flags-IsMerged flags.given file))))
  ]

  options_step-Merged :
      (flags : Flags) (r : Result Quit UserConfig)
      → Holds (Merged flags) r
      → Holds (Merged flags) (options_step r)
  unfolding options_step
  options_step-Merged flags (ok uc) h = h
  options_step-Merged flags (fail e) h = tt

  config_step-IsStarted :
      (now : ℕ) (zero_item : ConnectionLog) (flags : Flags) (uc : UserConfig)
      → Merged flags uc
      → (r : Result Stop ServerConfig)
      → get_proxy_config env now uc (new_proxy_config zero_item) ≡ r
      → Holds (IsStarted env read_file unmarshal zero_item now flags) (config_step r)
  unfolding config_step Merged
  config_step-IsStarted now zero_item flags uc (no_help, (file, read, merged)) (ok config) made =
      let ready =
        get_proxy_config-IsReady env now uc (new_proxy_config zero_item) config
          default_dns64_prefix-Is96 (omega arith) tt tt made in
      record {
        no_help = no_help;
        file = file;
        read = read;
        uc = uc;
        merged = merged;
        made = made;
        ready = ready;
        has_upstream = λ none_left.
            resolvers_of_ne uc.upstream
              (λ e.
                or_given_ne (file.upstream ++ flags.given.upstream) _ _ (sym merged.upstream ∙ e))
              (sym ready.upstream ∙ none_left);
      }
  config_step-IsStarted now zero_item flags uc merged (fail e) made = tt

  -- If the program starts its server, then without -help, and with what GetProxyConfig makes, with
  -- no error, of a user configuration that has every setting of the configuration file and of the
  -- flags as IsMerged says. That configuration has what IsReady says, and at least one upstream
  -- resolver.
  pub start-IsStarted :
      (zero_item : ConnectionLog) (now : ℕ) (flags : Flags) (config : ServerConfig)
      → start env read_file unmarshal zero_item now flags ≡ ok config
      → IsStarted env read_file unmarshal zero_item now flags config
  unfolding start
  start-IsStarted zero_item now flags config done =
      let got = get_user_config read_file unmarshal flags in
      subst (Holds (IsStarted env read_file unmarshal zero_item now flags)) done (
        >>=-Holds _ (options_step got) _
          (options_step-Merged flags got (get_user_config-Merged flags))
          (λ uc merged. config_step-IsStarted now zero_item flags uc merged _ refl))
