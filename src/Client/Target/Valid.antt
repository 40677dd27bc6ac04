-- ===== src/Client/Target/Valid.antt =====
-- What a configuration document has to be for parseServerConfig of target.go to accept it.
use Prim.Native.String.{String}
use text.Mathlib.Text.{◌==◌ as str_eq}
use netquality.Prelude.{
  ◌≡◌, ◌≢◌, ◌↔◌, ◌⊎◌, inl, inr, Bool, true, false, not, List, [], ◌∷◌, Option, none, some, ℤ, pos,
  arith, sym, ap, ◌∙◌, Option-cases,
}
use netquality.Client.Target.Keys.{Verdict, passed}
use netquality.Client.Target.Config.{
  ServerConfig, RawConfig, ParsedUrl, pick, text_or_blank, is_usable, check_hosts, config_of,
  parse_urls, parse_version, parse_server_config,
}
use netquality.Client.Target.Pick.{IsPicked, eqb_ℤ-one, pick_iff, filled_iff}

module _ (parse_url : String → Option ParsedUrl) (equal_fold : String → String → Bool) where
  -- Three URLs over HTTP or HTTPS, with a host each; the first host is the others'.
  abbrev IsHosted : String → String → String → Type 0
  IsHosted small large up =
      (p : ParsedUrl) × (q : ParsedUrl) × (r : ParsedUrl) × (parse_url small ≡ some p)
      × (parse_url large ≡ some q)
      × (parse_url up ≡ some r)
      × (is_usable p ≡ true)
      × (is_usable q ≡ true)
      × (is_usable r ≡ true)
      × (equal_fold p.host q.host ≡ true)
      × (equal_fold p.host r.host ≡ true)

  usable-host : (p : ParsedUrl) → is_usable p ≡ true → str_eq p.host "" ≡ false
  unfolding is_usable
  usable-host p h = ground arith

  -- One more URL passes when it is usable and has the host that the loop keeps, if it keeps one.
  check_hosts-some :
      (host u : String) (us : List String) (p : ParsedUrl)
      → parse_url u ≡ some p
      → is_usable p ≡ true
      → (str_eq host "" ≡ false) × (equal_fold host p.host ≡ true)
      → check_hosts parse_url equal_fold host (u ∷ us) ≡ check_hosts parse_url equal_fold host us
  unfolding check_hosts
  check_hosts-some host u us p parsed good (known, same) =
      rw (check_hosts, parsed, good, known, same)

  check_hosts-first :
      (u : String) (us : List String) (p : ParsedUrl)
      → parse_url u ≡ some p
      → is_usable p ≡ true
      → check_hosts parse_url equal_fold "" (u ∷ us) ≡ check_hosts parse_url equal_fold p.host us
  unfolding check_hosts
  check_hosts-first u us p parsed good = rw (check_hosts, parsed, good)

  check_hosts-inv :
      (host u : String) (us : List String)
      → check_hosts parse_url equal_fold host (u ∷ us) ≡ none
      → (p : ParsedUrl) × (parse_url u ≡ some p)
        × (is_usable p ≡ true)
        × ((str_eq host "" ≡ true) ⊎ ((str_eq host "" ≡ false) × (equal_fold host p.host ≡ true)))
  unfolding check_hosts
  check_hosts-inv host u us h = elim (Option-cases (parse_url u)) [
    | inl bad ↦ ground arith
    | inr (p, parsed) ↦ (p, parsed, ground arith, ground arith)
  ]

  same-host :
      (host u : String) (us : List String)
      → str_eq host "" ≡ false
      → check_hosts parse_url equal_fold host (u ∷ us) ≡ none
      → (p : ParsedUrl) × (parse_url u ≡ some p)
        × (is_usable p ≡ true)
        × (equal_fold host p.host ≡ true)
        × (check_hosts parse_url equal_fold host us ≡ none)
  same-host host u us known h =
      let (p, parsed, good, same) = check_hosts-inv host u us h in
      let fold : equal_fold host p.host ≡ true = ground arith in
      (p, parsed, good, fold, sym (check_hosts-some host u us p parsed good (known, fold)) ∙ h)

  hosts-IsHosted :
      (small large up : String)
      → check_hosts parse_url equal_fold "" (small ∷ large ∷ up ∷ []) ≡ none
      → IsHosted small large up
  hosts-IsHosted small large up h =
      let (p, some_p, use_p, first) = check_hosts-inv "" small (large ∷ up ∷ []) h in
      let rest = sym (check_hosts-first small (large ∷ up ∷ []) p some_p use_p) ∙ h in
      let (q, some_q, use_q, same_q, last) =
        same-host p.host large (up ∷ []) (usable-host p use_p) rest in
      let (r, some_r, use_r, same_r, done) = same-host p.host up [] (usable-host p use_p) last in
      (p, q, r, some_p, some_q, some_r, use_p, use_q, use_r, same_q, same_r)

  hosted-hosts :
      (small large up : String)
      → IsHosted small large up
      → check_hosts parse_url equal_fold "" (small ∷ large ∷ up ∷ []) ≡ none
  unfolding check_hosts
  hosted-hosts small large up
        (p, q, r, some_p, some_q, some_r, use_p, use_q, use_r, same_q, same_r) =
      check_hosts-first small (large ∷ up ∷ []) p some_p use_p
      ∙ check_hosts-some p.host large (up ∷ []) q some_q use_q (usable-host p use_p, same_q)
      ∙ check_hosts-some p.host up [] r some_r use_r (usable-host p use_p, same_r)

  -- The configuration is picked from the document's URLs, which share a host.
  abbrev pub IsConfig : ℤ → String → List (String × String) → ServerConfig → Type 0
  IsConfig version test_endpoint urls c =
      (c.version ≡ version)
      × (c.test_endpoint ≡ test_endpoint)
      × IsPicked "small_https_download_url" "small_download_url" urls c.small_download_url
      × IsPicked "large_https_download_url" "large_download_url" urls c.large_download_url
      × IsPicked "https_upload_url" "upload_url" urls c.upload_url
      × IsHosted c.small_download_url c.large_download_url c.upload_url

  config_of-IsConfig :
      (version : ℤ) (test_endpoint : String) (urls : List (String × String)) (c : ServerConfig)
      → config_of parse_url equal_fold version test_endpoint urls ≡ inr c
      → IsConfig version test_endpoint urls c
  unfolding config_of
  config_of-IsConfig version test_endpoint urls c h =
      let small : pick ("small_https_download_url" ∷ "small_download_url" ∷ []) urls
          ≡ inr c.small_download_url =
        ground arith in
      let large : pick ("large_https_download_url" ∷ "large_download_url" ∷ []) urls
          ≡ inr c.large_download_url =
        ground arith in
      let up : pick ("https_upload_url" ∷ "upload_url" ∷ []) urls ≡ inr c.upload_url =
        ground arith in
      let hosts : check_hosts parse_url equal_fold ""
            (c.small_download_url ∷ c.large_download_url ∷ c.upload_url ∷ [])
          ≡ none =
        ground arith in
      (
        ground arith,
        ground arith,
        (pick_iff "small_https_download_url" "small_download_url" urls c.small_download_url).0
            small,
        (pick_iff "large_https_download_url" "large_download_url" urls c.large_download_url).0
            large,
        (pick_iff "https_upload_url" "upload_url" urls c.upload_url).0 up,
        hosts-IsHosted c.small_download_url c.large_download_url c.upload_url hosts,
      )

  config-config_of :
      (version : ℤ) (test_endpoint : String) (urls : List (String × String)) (c : ServerConfig)
      → IsConfig version test_endpoint urls c
      → config_of parse_url equal_fold version test_endpoint urls ≡ inr c
  unfolding config_of
  config-config_of version test_endpoint urls c
        (same_version, same_endpoint, small, large, up, hosted) =
      let small : pick ("small_https_download_url" ∷ "small_download_url" ∷ []) urls
          ≡ inr c.small_download_url =
        (pick_iff "small_https_download_url" "small_download_url" urls c.small_download_url).1
          small in
      let large : pick ("large_https_download_url" ∷ "large_download_url" ∷ []) urls
          ≡ inr c.large_download_url =
        (pick_iff "large_https_download_url" "large_download_url" urls c.large_download_url).1
          large in
      let up : pick ("https_upload_url" ∷ "upload_url" ∷ []) urls ≡ inr c.upload_url =
        (pick_iff "https_upload_url" "upload_url" urls c.upload_url).1 up in
      rw
        (
          config_of,
          small,
          large,
          up,
          hosted-hosts c.small_download_url c.large_download_url c.upload_url hosted,
        )
        (ground arith)

  module _ (check_keys : String → Verdict) (unmarshal : String → Option RawConfig)
      (unmarshal_urls : String → Option (List (String × String))) (int64 : String → Option ℤ) where
    -- A document that is an object of distinct keys, with version 1 and an object of distinct URLs.
    abbrev pub IsDocument : String → RawConfig → String → List (String × String) → Type 0
    IsDocument document raw number urls =
        (unmarshal document ≡ some raw)
        × (check_keys document ≡ passed)
        × (raw.version ≡ some number)
        × (int64 number ≡ some (pos 1))
        × (raw.urls ≢ "")
        × (unmarshal_urls raw.urls ≡ some urls)
        × (check_keys raw.urls ≡ passed)

    parse_urls-inv :
        (version : ℤ) (raw : RawConfig) (c : ServerConfig)
        → parse_urls parse_url equal_fold check_keys unmarshal unmarshal_urls int64 version raw
          ≡ some (inr c)
        → (urls : List (String × String)) × (str_eq raw.urls "" ≡ false)
          × (unmarshal_urls raw.urls ≡ some urls)
          × (check_keys raw.urls ≡ passed)
          × (config_of parse_url equal_fold version (text_or_blank raw.test_endpoint) urls ≡ inr c)
    unfolding parse_urls
    parse_urls-inv version raw c h = elim (Option-cases (unmarshal_urls raw.urls)) [
      | inl bad ↦ ground arith
      | inr (urls, got) ↦ (urls, ground arith, got, ground arith, ground arith)
    ]

    -- A document is accepted, and as this configuration, exactly when it is an object of distinct keys,
    -- its version is 1, its URLs are an object of distinct keys, each of the three is picked from them by
    -- its two names, and all are over HTTP or HTTPS with one host.
    pub parse_server_config_iff :
        (document : String) (c : ServerConfig)
        → (parse_server_config parse_url equal_fold check_keys unmarshal unmarshal_urls int64
              document
            ≡ some (inr c))
          ↔ ((raw : RawConfig) × (number : String) × (urls : List (String × String)) × IsDocument
                document raw number urls
              × IsConfig (pos 1) (text_or_blank raw.test_endpoint) urls c)
    unfolding parse_server_config parse_version parse_urls
    parse_server_config_iff document c = (
      (λ h. elim (Option-cases (unmarshal document)) [
        | inl bad ↦ ground arith
        | inr (raw, unmarshalled) ↦ elim (Option-cases raw.version) [
          | inl bad ↦ ground arith
          | inr (number, version) ↦ elim (Option-cases (int64 number)) [
            | inl bad ↦ ground arith
            | inr (v, int) ↦
                let keys : check_keys document ≡ passed = ground arith in
                let one : v ≡ pos 1 = eqb_ℤ-one v (ground arith) in
                let tail : parse_urls parse_url equal_fold check_keys unmarshal unmarshal_urls int64
                      (pos 1) raw
                    ≡ some (inr c) =
                  ground arith in
                let (urls, full, got, url_keys, config) = parse_urls-inv (pos 1) raw c tail in
                (
                  raw,
                  number,
                  urls,
                  (
                    unmarshalled,
                    keys,
                    version,
                    int ∙ ap some one,
                    (filled_iff raw.urls).0 (ap not full),
                    got,
                    url_keys,
                  ),
                  config_of-IsConfig (pos 1) (text_or_blank raw.test_endpoint) urls c config,
                )
          ]
        ]
      ]),
      (λ (raw, number, urls, (unmarshalled, keys, version, int, full, got, url_keys), config).
          let blank : str_eq raw.urls "" ≡ false = ground (arith, (filled_iff raw.urls).1 full) in
          let made = config-config_of (pos 1) (text_or_blank raw.test_endpoint) urls c config in
          rw (
            parse_server_config, unmarshalled, keys, parse_version, version, int, parse_urls, blank,
            got, url_keys, made,
          )),
    )
