-- ===== src/Worker/Setup/Negotiation.antt =====
-- video_callbacks.c, `worker_setup`: no format but the requested one is taken.
use myworkspace.Prelude.{
  ℕ, ◌≡◌, ◌≢◌, length, List, [], ◌∷◌, Option, none, some, Bool, true, false, not, ◌&&◌,
  if◌then◌else◌, arith, refl, ap, ◌∙◌, ◌↔◌, ◌⊎◌, sym, Bool-cases, inl, inr, subst, if-holds, ◌==◌,
  ==_iff,
}
use myworkspace.Sender.{default_send_buffer_size, TcpSender}
use myworkspace.Sender.Net.{Net}
use myworkspace.Sender.Connect.{init}
use myworkspace.Sender.Connect.Init.{init_lem}
use myworkspace.Worker.{Worker, WorkerRenderConfig}
use myworkspace.Worker.Format.{
  Negotiated, video_format_to_stream_metadata, set_fatal_once, fatal_negotiation_mismatch,
}
use myworkspace.Worker.Setup.{
  or_default, host_or_local, is_requested, worker_setup, setup_as, after_init, save_negotiated,
  sender_config, start_stats,
}

-- The comparison of the code, for a format that is known.
abbrev agrees : WorkerRenderConfig → Option Negotiated → Bool
agrees cfg none = false
agrees cfg (some n) = is_requested cfg n

-- A format of Limelight.h with the codec, the chroma and the bit depth that its name tells: a codec is 0 for
-- H.264, 1 for HEVC and 2 for AV1, a chroma 0 for 4:2:0 and 1 for 4:4:4.
pub data IsVideoFormat : ℕ → ℕ → ℕ → ℕ → Type 0 where
  h264 : IsVideoFormat 1 0 0 8
  h264_high8_444 : IsVideoFormat 4 0 1 8
  h265 : IsVideoFormat 256 1 0 8
  h265_main10 : IsVideoFormat 512 1 0 10
  h265_rext8_444 : IsVideoFormat 1024 1 1 8
  h265_rext10_444 : IsVideoFormat 2048 1 1 10
  av1_main8 : IsVideoFormat 4096 2 0 8
  av1_main10 : IsVideoFormat 8192 2 0 10
  av1_high8_444 : IsVideoFormat 16384 2 1 8
  av1_high10_444 : IsVideoFormat 32768 2 1 10

abbrev IsTold : ℕ → Option Negotiated → Type 0
IsTold format none = Unit
IsTold format (some n) = IsVideoFormat format n.codec n.chroma n.bitdepth

metadata-IsTold : (format : ℕ) → IsTold format (video_format_to_stream_metadata format)
unfolding video_format_to_stream_metadata
metadata-IsTold format =
    let is = λ (k : ℕ) (e : (format == k) ≡ true). sym ((==_iff format k).0 e) in
    if-holds (IsTold format) (format == 1) _ _
      (λ e. subst (λ f. IsVideoFormat f 0 0 8) (is 1 e) h264)
      (λ _.
        if-holds (IsTold format) (format == 4) _ _
          (λ e. subst (λ f. IsVideoFormat f 0 1 8) (is 4 e) h264_high8_444)
          (λ _.
            if-holds (IsTold format) (format == 256) _ _
              (λ e. subst (λ f. IsVideoFormat f 1 0 8) (is 256 e) h265)
              (λ _.
                if-holds (IsTold format) (format == 512) _ _
                  (λ e. subst (λ f. IsVideoFormat f 1 0 10) (is 512 e) h265_main10)
                  (λ _.
                    if-holds (IsTold format) (format == 1024) _ _
                      (λ e. subst (λ f. IsVideoFormat f 1 1 8) (is 1024 e) h265_rext8_444)
                      (λ _.
                        if-holds (IsTold format) (format == 2048) _ _
                          (λ e. subst (λ f. IsVideoFormat f 1 1 10) (is 2048 e) h265_rext10_444)
                          (λ _.
                            if-holds (IsTold format) (format == 4096) _ _
                              (λ e. subst (λ f. IsVideoFormat f 2 0 8) (is 4096 e) av1_main8)
                              (λ _.
                                if-holds (IsTold format) (format == 8192) _ _
                                  (λ e. subst (λ f. IsVideoFormat f 2 0 10) (is 8192 e) av1_main10)
                                  (λ _.
                                    if-holds (IsTold format) (format == 16384) _ _
                                      (λ e.
                                        subst (λ f. IsVideoFormat f 2 1 8) (is 16384 e)
                                          av1_high8_444)
                                      (λ _.
                                        if-holds (IsTold format) (format == 32768) _ _
                                          (λ e.
                                            subst (λ f. IsVideoFormat f 2 1 10) (is 32768 e)
                                              av1_high10_444)
                                          (λ _. tt))))))))))

IsVideoFormat-metadata :
    {format codec chroma bitdepth : ℕ}
    → IsVideoFormat format codec chroma bitdepth
    → video_format_to_stream_metadata format
      ≡ some (record { codec = codec; chroma = chroma; bitdepth = bitdepth })
unfolding video_format_to_stream_metadata
IsVideoFormat-metadata h264 = refl
IsVideoFormat-metadata h264_high8_444 = refl
IsVideoFormat-metadata h265 = refl
IsVideoFormat-metadata h265_main10 = refl
IsVideoFormat-metadata h265_rext8_444 = refl
IsVideoFormat-metadata h265_rext10_444 = refl
IsVideoFormat-metadata av1_main8 = refl
IsVideoFormat-metadata av1_main10 = refl
IsVideoFormat-metadata av1_high8_444 = refl
IsVideoFormat-metadata av1_high10_444 = refl

-- The negotiated format is what was requested.
abbrev pub IsAgreed : WorkerRenderConfig → ℕ → Type 0
IsAgreed cfg format = IsVideoFormat format cfg.codec cfg.chroma cfg.bitdepth

-- Refused before anything was done on the network.
pub record Refused {W : Type 0} (v : Worker) (cfg : WorkerRenderConfig) (w : W)
    (out : Bool × (Worker × W)) : Type 0 where
  pub failed : out.0 ≡ false
  pub noted : out.1.0 ≡ set_fatal_once (record v { cfg = some cfg }) fatal_negotiation_mismatch
  pub quiet : out.1.1 ≡ w

or_default_lem : (n d : ℕ) → d ≢ 0 → or_default n d ≢ 0
or_default_lem n d set = ground arith

host_or_local_lem : (host : List ℕ) → host_or_local host ≢ []
host_or_local_lem [] e = absurd (omega (arith, ap length e))
host_or_local_lem (c ∷ cs) e = absurd (omega (arith, ap length e))

module _ {W : Type 0} (net : Net W) (rounds : ℕ) where
  choose :
      (v : Worker) (cfg : WorkerRenderConfig) (w : W) (b : Bool) (x y : Bool × (Worker × W))
      (m : Bool)
      → Refused v cfg w x
      → y.0 ≡ m
      → let out = if not b then x else y in (out.0 ≡ (b && m)) × (b ≡ false → Refused v cfg w out)
  choose v cfg w true x y m refused e = (e, λ off. absurd (ground (arith, off)))
  choose v cfg w false x y m refused e = (refused.failed, λ off. refused)

  after_init-ok : (v : Worker) (r : Bool × (TcpSender × W)) → (after_init net rounds v r).0 ≡ r.0
  unfolding after_init start_stats
  after_init-ok v (false, (s, w)) = refl
  after_init-ok v (true, (s, w)) = refl

  init-ok :
      (s : TcpSender) (cfg : WorkerRenderConfig) (format width height : ℕ) (n : Negotiated) (w : W)
      → (init net s (sender_config cfg format width height n) w).0
        ≡ (net.malloc default_send_buffer_size w).0
  unfolding sender_config
  init-ok s cfg format width height n w =
      init_lem net s (sender_config cfg format width height n) w
        (or_default_lem cfg.tcp_port 9000 (ground arith)) (host_or_local_lem cfg.tcp_host)
        (or_default_lem cfg.stream_id 1 (ground arith))

  setup_as_lem :
      (v : Worker) (cfg : WorkerRenderConfig) (format width height : ℕ) (o : Option Negotiated)
      (w : W)
      → let out = setup_as net rounds (record v { cfg = some cfg }) cfg format width height o w in
        (out.0 ≡ (agrees cfg o && (net.malloc default_send_buffer_size w).0))
        × (agrees cfg o ≡ false → Refused v cfg w out)
  unfolding setup_as
  setup_as_lem v cfg format width height none w =
      (refl, λ e. record { failed = refl; noted = refl; quiet = refl })
  setup_as_lem v cfg format width height (some n) w =
      let v1 = record v { cfg = some (save_negotiated cfg format width height n) } in
      let made = init net v.tcp_sender (sender_config cfg format width height n) w in
      let went : (after_init net rounds v1 made).0 ≡ (net.malloc default_send_buffer_size w).0 =
        after_init-ok v1 made ∙ init-ok v.tcp_sender cfg format width height n w in
      choose v cfg w (is_requested cfg n)
        (false, (set_fatal_once (record v { cfg = some cfg }) fatal_negotiation_mismatch, w))
        (after_init net rounds v1 made) (net.malloc default_send_buffer_size w).0
        (record { failed = refl; noted = refl; quiet = refl }) went

  worker_setup-agrees :
      (v : Worker) (cfg : WorkerRenderConfig) (format width height : ℕ) (w : W)
      → let out = worker_setup net rounds v (some cfg) format width height w in
        let same = agrees cfg (video_format_to_stream_metadata format) in
        (out.0 ≡ (same && (net.malloc default_send_buffer_size w).0))
        × (same ≡ false → Refused v cfg w out)
  unfolding worker_setup
  worker_setup-agrees v cfg format width height w =
      setup_as_lem v cfg format width height (video_format_to_stream_metadata format) w

  IsAgreed-agrees :
      (cfg : WorkerRenderConfig) (format : ℕ)
      → IsAgreed cfg format
      → agrees cfg (video_format_to_stream_metadata format) ≡ true
  IsAgreed-agrees cfg format same = rw (IsVideoFormat-metadata same) (ground arith)

  agrees-IsAgreed :
      (cfg : WorkerRenderConfig) (format : ℕ)
      → agrees cfg (video_format_to_stream_metadata format) ≡ true
      → IsAgreed cfg format
  agrees-IsAgreed cfg format same =
      by_case (video_format_to_stream_metadata format) (metadata-IsTold format) same
    where
      by_case :
          (o : Option Negotiated) → IsTold format o → agrees cfg o ≡ true → IsAgreed cfg format
      by_case none told e = absurd (ground arith)
      by_case (some n) told e =
          let codec : n.codec ≡ cfg.codec = ground arith in
          let chroma : n.chroma ≡ cfg.chroma = ground arith in
          let bitdepth : n.bitdepth ≡ cfg.bitdepth = ground arith in
          subst (λ b. IsVideoFormat format cfg.codec cfg.chroma b) bitdepth
            (subst (λ h. IsVideoFormat format cfg.codec h n.bitdepth) chroma
              (subst (λ c. IsVideoFormat format c n.chroma n.bitdepth) codec told))

  -- No silent downgrade: where `worker_setup` returns 0, the negotiated format is known and has the codec,
  -- the chroma and the bit depth that were requested; where it is so and the buffer of the sender can be
  -- had, it returns 0; and the format is so, or nothing is done on the network and the error is
  -- noted as a mismatch, if it is the first.
  pub worker_setup_lem :
      (v : Worker) (cfg : WorkerRenderConfig) (format width height : ℕ) (w : W)
      → let out = worker_setup net rounds v (some cfg) format width height w in
        ((out.0 ≡ true)
          ↔ (IsAgreed cfg format × ((net.malloc default_send_buffer_size w).0 ≡ true)))
        × (IsAgreed cfg format ⊎ Refused v cfg w out)
  worker_setup_lem v cfg format width height w =
      let (ok, denied) = worker_setup-agrees v cfg format width height w in
      (
        (
          λ e. (agrees-IsAgreed cfg format (ground (arith, ok)), ground (arith, ok)),
          λ (same, got). ok ∙ ground (arith, IsAgreed-agrees cfg format same, got),
        ),
        elim (Bool-cases (agrees cfg (video_format_to_stream_metadata format))) [
          | inl e ↦ inl (agrees-IsAgreed cfg format e)
          | inr e ↦ inr (denied e)
        ],
      )
