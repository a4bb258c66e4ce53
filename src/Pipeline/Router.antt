-- ===== src/Pipeline/Router.antt =====
-- backend/include/modules/crack_router_module.h and the messages of backend/include/common.h.
use ai_solo_coder_task_a.Common.{
  CrackInfo, LaserMicroscopeData, Point3D, ProfinetPacket, VibrationData,
}
use ai_solo_coder_task_a.Prelude.{
  Bool, Bool-cases, List, Option, [], append-nil, append_assoc, false, if◌then◌else◌, inl, inr, map,
  none, not, refl, some, true, ℕ, ◌++◌, ◌||◌, ◌∷◌, ◌≡◌, ◌≢◌, ◌⊎◌,
}

module _ (Json : Type 0) where
  pub record ParsedLaserMessage : Type 0 where
    pub packet : ProfinetPacket
    pub laser_data : LaserMicroscopeData Json

  pub record ParsedVibrationMessage : Type 0 where
    pub packet : ProfinetPacket
    pub vibration_data : VibrationData Json

  pub record CrackDetectionMessage : Type 0 where
    pub laser_data : LaserMicroscopeData Json
    pub porcelain_id : ℕ
    pub cracks : List CrackInfo
    pub crack_points : List (List Point3D)

-- The loop over the cracks: the two vectors it fills.
push_cracks :
    List CrackInfo → List CrackInfo → List (List Point3D) → List CrackInfo × List (List Point3D)
push_cracks [] cracks crack_points = (cracks, crack_points)
push_cracks (crack ∷ rest) cracks crack_points =
    push_cracks rest (cracks ++ crack ∷ []) (crack_points ++ crack.points ∷ [])

abbrev no_cracks : List CrackInfo → Bool
no_cracks [] = true
no_cracks (crack ∷ cracks) = false

push_cracks_lem :
    (rest cracks : List CrackInfo) (crack_points : List (List Point3D))
    → push_cracks rest cracks crack_points
      ≡ (cracks ++ rest, crack_points ++ map (λ c. c.points) rest)
unfolding push_cracks
push_cracks_lem [] cracks crack_points = rw (append-nil cracks, append-nil crack_points) refl
push_cracks_lem (crack ∷ rest) cracks crack_points =
    rw (push_cracks_lem rest (cracks ++ crack ∷ []) (crack_points ++ crack.points ∷ [])) (
      rw
        (
          append_assoc cracks (crack ∷ []) rest,
          append_assoc crack_points (crack.points ∷ []) (map (λ c. c.points) rest),
        )
        refl)

no_cracks-cases :
    (cracks : List CrackInfo)
    → (no_cracks cracks ≡ true) × (cracks ≡ []) ⊎ (no_cracks cracks ≡ false) × (cracks ≢ [])
no_cracks-cases [] = inl (refl, refl)
no_cracks-cases (crack ∷ cracks) = inr (refl, λ e. cc)

module _ {Json : Type 0} where
  -- The message that `CrackRouterModule::process` pushes, or `none` where it returns early.
  unfoldable pub route : ParsedLaserMessage Json → Option (CrackDetectionMessage Json)
  unfolding push_cracks
  route msg =
      if not msg.laser_data.crack_detected || no_cracks msg.laser_data.cracks
      then none
      else let pushed = push_cracks msg.laser_data.cracks [] [] in
        some (record {
          laser_data = msg.laser_data;
          porcelain_id = msg.laser_data.porcelain_id;
          cracks = pushed.0;
          crack_points = pushed.1;
        })

  -- The router passes a laser message on exactly if a crack is detected and there is one: the message
  -- then holds the data, its porcelain, all its cracks in their order, and beside each its points.
  pub route_lem :
      (msg : ParsedLaserMessage Json)
      → ((msg.laser_data.crack_detected ≡ false) ⊎ (msg.laser_data.cracks ≡ []))
          × (route msg ≡ none)
        ⊎ ((msg.laser_data.crack_detected ≡ true)
            × (msg.laser_data.cracks ≢ [])
            × (route msg
                ≡ some (record {
                  laser_data = msg.laser_data;
                  porcelain_id = msg.laser_data.porcelain_id;
                  cracks = msg.laser_data.cracks;
                  crack_points = map (λ c. c.points) msg.laser_data.cracks;
                })))
  unfolding route
  route_lem msg = elim (Bool-cases msg.laser_data.crack_detected) [
    | inl detected ↦ elim (no_cracks-cases msg.laser_data.cracks) [
      | inl (e, f) ↦ inl (inr f, rw (detected, e) refl)
      | inr (e, f) ↦
          inr (detected, f, rw (detected, e, push_cracks_lem msg.laser_data.cracks [] []) refl)
    ]
    | inr clear ↦ inl (inl clear, rw clear refl)
  ]
