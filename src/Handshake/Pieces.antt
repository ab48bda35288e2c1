-- ===== src/Handshake/Pieces.antt =====
-- h264_tap.c of the agent: the handshake does not depend on the pieces in which its lines come.
use myworkspace.Prelude.{
  ℕ, ◌≡◌, ◌≢◌, ◌++◌, List, [], ◌∷◌, Option, none, some, Bool, true, false, not, ◌==◌, if◌then◌else◌,
  if-holds, arith, refl, sym, ap, ◌∙◌, append_assoc, append-nil, All,
}
use mathlib.Core.List.{flatten}
use myworkspace.Handshake.{
  Scanner, Fed, line_feed, until_nul, trim_line, lines, feed, passes, parse_sub_line, sub_end,
}

-- The pieces fed one after the other, until one of them settles it.
abbrev pub feed_all : Scanner → List ℕ → Fed → List (List ℕ) → Fed
feed_all scanner token fed [] = fed
feed_all scanner token Fed.refused (piece ∷ pieces) = Fed.refused
feed_all scanner token (Fed.subscribed sid) (piece ∷ pieces) = Fed.subscribed sid
feed_all scanner token (Fed.more authed buf) (piece ∷ pieces) =
    feed_all scanner token (feed scanner token authed buf piece) pieces

until_nul_lem : (xs : List ℕ) → All (λ c. c ≢ 0) xs → until_nul xs ≡ xs
unfolding until_nul
until_nul_lem [] clean = refl
until_nul_lem (c ∷ cs) (ok, clean) = ground (arith, until_nul_lem cs clean)

module _ (scanner : Scanner) (token : List ℕ) where
  -- Going on from a state of the loop.
  abbrev go_on : Fed → List ℕ → Fed
  go_on Fed.refused ys = Fed.refused
  go_on (Fed.subscribed sid) ys = Fed.subscribed sid
  go_on (Fed.more authed line) ys = lines scanner token authed true [] line ys

  go_on-if :
      (b : Bool) (x y x' y' : Fed) (ys : List ℕ)
      → x' ≡ go_on x ys
      → y' ≡ go_on y ys
      → (if b then x' else y') ≡ go_on (if b then x else y) ys
  go_on-if true x y x' y' ys hx hy = hx
  go_on-if false x y x' y' ys hx hy = hy

  if-same :
      (b : Bool) (x y x' y' : Fed) → x ≡ x' → y ≡ y' → (if b then x else y) ≡ (if b then x' else y')
  if-same true x y x' y' hx hy = hx
  if-same false x y x' y' hx hy = hy

  sub_end-go_on :
      (o : Option ℕ) (ys : List ℕ) → sub_end scanner token o ≡ go_on (sub_end scanner token o) ys
  unfolding sub_end
  sub_end-go_on none ys = refl
  sub_end-go_on (some sid) ys = refl

  lines-append :
      (xs ys line : List ℕ) (authed : Bool)
      → lines scanner token authed true [] line (xs ++ ys)
        ≡ go_on (lines scanner token authed true [] line xs) ys
  unfolding lines
  lines-append [] ys line authed = refl
  lines-append (c ∷ cs) ys line authed =
      go_on-if (c == line_feed) _ _ _ _ ys
        (go_on-if (not authed) _ _ _ _ ys
          (go_on-if (passes scanner token (trim_line line)) _ _ _ _ ys (lines-append cs ys [] true)
            refl)
          (sub_end-go_on (parse_sub_line scanner token (trim_line line)) ys))
        (lines-append cs ys (line ++ (c ∷ [])) authed)

  -- Once a line has been taken, the old buffer does not matter.
  lines-whole :
      (whole line xs : List ℕ) (authed : Bool)
      → lines scanner token authed true whole line xs ≡ lines scanner token authed true [] line xs
  unfolding lines
  lines-whole whole line [] authed = refl
  lines-whole whole line (c ∷ cs) authed =
      if-same (c == line_feed) _ _ _ _
        (if-same (not authed) _ _ _ _
          (if-same (passes scanner token (trim_line line)) _ _ _ _ (lines-whole whole [] cs true)
            refl)
          refl)
        (lines-whole whole (line ++ (c ∷ [])) cs authed)

  -- Before that, it is what has been passed and what is to come.
  lines-fresh :
      (whole line xs : List ℕ) (authed : Bool)
      → whole ≡ line ++ xs
      → lines scanner token authed false whole line xs ≡ lines scanner token authed true [] line xs
  unfolding lines
  lines-fresh whole line [] authed e = ap (λ r. Fed.more authed r) (e ∙ append-nil line)
  lines-fresh whole line (c ∷ cs) authed e =
      if-same (c == line_feed) _ _ _ _
        (if-same (not authed) _ _ _ _
          (if-same (passes scanner token (trim_line line)) _ _ _ _ (lines-whole whole [] cs true)
            refl)
          refl)
        (lines-fresh whole (line ++ (c ∷ [])) cs authed (e ∙ sym (append_assoc line (c ∷ []) cs)))

  -- A byte of a line that is not ended.
  abbrev IsInner : ℕ → Type 0
  IsInner c = (c ≢ 0) × (c ≢ line_feed)

  abbrev Settled : Fed → Type 0
  Settled Fed.refused = Unit
  Settled (Fed.subscribed sid) = Unit
  Settled (Fed.more authed line) = All IsInner line

  lines-inner :
      (r ys line : List ℕ) (authed : Bool)
      → All IsInner r
      → lines scanner token authed true [] line (r ++ ys)
        ≡ lines scanner token authed true [] (line ++ r) ys
  unfolding lines
  lines-inner [] ys line authed inner =
      ap (λ l. lines scanner token authed true [] l ys) (sym (append-nil line))
  lines-inner (c ∷ cs) ys line authed (ok, inner) =
      if-holds (λ (x : Fed). x ≡ lines scanner token authed true [] (line ++ (c ∷ cs)) ys)
        (c == line_feed) _ _ (λ e. absurd (ground (arith, ok.1)))
        (λ e.
          lines-inner cs ys (line ++ (c ∷ [])) authed inner
          ∙ ap (λ l. lines scanner token authed true [] l ys) (append_assoc line (c ∷ []) cs))

  All-snoc : (line : List ℕ) (c : ℕ) → All IsInner line → IsInner c → All IsInner (line ++ (c ∷ []))
  All-snoc [] c h ok = (ok, tt)
  All-snoc (d ∷ ds) c (h, hs) ok = (h, All-snoc ds c hs ok)

  sub_end-Settled : (o : Option ℕ) → Settled (sub_end scanner token o)
  unfolding sub_end
  sub_end-Settled none = tt
  sub_end-Settled (some sid) = tt

  lines-Settled :
      (xs line : List ℕ) (authed : Bool)
      → All (λ c. c ≢ 0) xs
      → All IsInner line
      → Settled (lines scanner token authed true [] line xs)
  unfolding lines
  lines-Settled [] line authed clean inner = inner
  lines-Settled (c ∷ cs) line authed (ok, clean) inner =
      if-holds Settled (c == line_feed) _ _
        (λ e.
          if-holds Settled (not authed) _ _
            (λ e.
              if-holds Settled (passes scanner token (trim_line line)) _ _
                (λ e. lines-Settled cs [] true clean tt) (λ e. tt))
            (λ e. sub_end-Settled (parse_sub_line scanner token (trim_line line))))
        (λ e.
          lines-Settled cs (line ++ (c ∷ [])) authed clean
            (All-snoc line c inner (ok, ground arith)))

  All-both :
      (xs ys : List ℕ) → All (λ c. c ≢ 0) xs → All (λ c. c ≢ 0) ys → All (λ c. c ≢ 0) (xs ++ ys)
  All-both [] ys hx hy = hy
  All-both (x ∷ xs) ys (h, hx) hy = (h, All-both xs ys hx hy)

  All-inner : (xs : List ℕ) → All IsInner xs → All (λ c. c ≢ 0) xs
  All-inner [] h = tt
  All-inner (x ∷ xs) (h, hs) = (h.0, All-inner xs hs)

  feed-lines :
      (authed : Bool) (r piece : List ℕ)
      → All IsInner r
      → All (λ c. c ≢ 0) piece
      → feed scanner token authed r piece ≡ lines scanner token authed true [] r piece
  unfolding feed
  feed-lines authed r piece inner clean =
      ap (λ text. lines scanner token authed false (r ++ piece) [] text)
        (until_nul_lem (r ++ piece) (All-both r piece (All-inner r inner) clean))
      ∙ (lines-fresh (r ++ piece) [] (r ++ piece) authed refl ∙ lines-inner r piece [] authed inner)

  feed_all-go_on :
      (pieces : List (List ℕ)) (fed : Fed)
      → Settled fed
      → All (λ piece. All (λ c. c ≢ 0) piece) pieces
      → feed_all scanner token fed pieces ≡ go_on fed (flatten pieces)
  unfolding flatten lines
  feed_all-go_on [] Fed.refused settled clean = refl
  feed_all-go_on [] (Fed.subscribed sid) settled clean = refl
  feed_all-go_on [] (Fed.more authed r) settled clean = refl
  feed_all-go_on (piece ∷ pieces) Fed.refused settled clean = refl
  feed_all-go_on (piece ∷ pieces) (Fed.subscribed sid) settled clean = refl
  feed_all-go_on (piece ∷ pieces) (Fed.more authed r) settled (ok, clean) =
      let step = feed-lines authed r piece settled ok in
      ap (λ fed. feed_all scanner token fed pieces) step
      ∙ (feed_all-go_on pieces (lines scanner token authed true [] r piece)
            (lines-Settled piece r authed ok settled) clean
          ∙ sym (lines-append piece (flatten pieces) r authed))

  All-flatten :
      (pieces : List (List ℕ))
      → All (λ piece. All (λ c. c ≢ 0) piece) pieces
      → All (λ c. c ≢ 0) (flatten pieces)
  unfolding flatten
  All-flatten [] clean = tt
  All-flatten (piece ∷ pieces) (ok, clean) =
      All-both piece (flatten pieces) ok (All-flatten pieces clean)

  -- For lines without a byte 0, the handshake is settled by what is sent and not by the pieces in which
  -- it comes: fed piece by piece, until one settles it, it is refused, gives the same stream or is left
  -- with the same state and the same rest as fed at once. What comes behind the SUB line is not looked at.
  pub feed_all-flatten :
      (pieces : List (List ℕ)) (authed : Bool)
      → All (λ piece. All (λ c. c ≢ 0) piece) pieces
      → feed_all scanner token (Fed.more authed []) pieces
        ≡ feed scanner token authed [] (flatten pieces)
  feed_all-flatten pieces authed clean =
      feed_all-go_on pieces (Fed.more authed []) tt clean
      ∙ sym (feed-lines authed [] (flatten pieces) tt (All-flatten pieces clean))
