-- ===== src/Client/Bandwidth/Limits.antt =====
-- mumble/mumble.c: the bitrate that is chosen.
use lua_mumble.Base.{
  if◌then◌else◌, ◌^◌, ℕ, zero, suc, ◌-◌, ◌*◌, ◌/◌, ◌≤◌, ◌≢◌, ◌⊎◌, inl, inr, ◌≡◌, refl, arith, ltb,
  ◌==◌, some, Bool-cases, false, tests,
}
use lua_mumble.Client.Bandwidth.{
  network_bandwidth, fit_frames, lower_fuel, adjust_audio_bandwidth, fitted, no_limit,
}

-- The loop ends at a bitrate of at most 8000, or at one that fits.
lower_fuel_lem :
    (fuel frames maxbitrate bitrate : ℕ)
    → bitrate ≤ fuel
    → (lower_fuel fuel frames maxbitrate bitrate ≤ 8000)
      ⊎ (network_bandwidth (lower_fuel fuel frames maxbitrate bitrate) frames ≤ maxbitrate)
unfolding lower_fuel
lower_fuel_lem zero frames maxbitrate bitrate h = inl (omega arith)
lower_fuel_lem (suc fuel) frames maxbitrate bitrate h =
    elim (Bool-cases (ltb 8000 (bitrate - 1000))) [
      | inr low ↦ rw low (inl (omega (tests, low)))
      | inl high ↦ elim (Bool-cases (ltb maxbitrate (network_bandwidth (bitrate - 1000) frames))) [
        | inr fits ↦ rw (high, fits) (inr (omega (tests, fits)))
        | inl big ↦
            rw (high, big)
              (lower_fuel_lem fuel frames maxbitrate (bitrate - 1000) (omega (tests, high)))
      ]
    ]

fitted_lem :
    (frames maxbitrate bitrate : ℕ)
    → maxbitrate ≢ 2 ^ 32 - 1
    → ((fitted frames maxbitrate bitrate).1 ≤ 8000)
      ⊎ (network_bandwidth (fitted frames maxbitrate bitrate).1 (fitted frames maxbitrate bitrate).0
          ≤ maxbitrate)
unfolding fitted no_limit
fitted_lem frames maxbitrate bitrate h =
    let fewer = fit_frames frames maxbitrate in
    let limited : (maxbitrate == 2 ^ 32 - 1) ≡ false = ground arith in
    elim (Bool-cases (ltb maxbitrate (network_bandwidth bitrate frames))) [
      | inr fits ↦ rw (limited, fits) (inr (omega (tests, fits)))
      | inl big ↦ elim (Bool-cases (ltb maxbitrate (network_bandwidth bitrate fewer))) [
        | inr fits ↦ rw (limited, big, fits) (inr (omega (tests, fits)))
        | inl bigger ↦
            rw (limited, big, bigger)
              (lower_fuel_lem bitrate fewer maxbitrate bitrate (omega arith))
      ]
    ]

-- The bitrate that is set is at least 8000. Where the server names a limit and the client has
-- frames to send, it is 8000 or within the limit with the frames that are sent.
pub adjust_lem :
    (audio_frames maxbitrate original : ℕ)
    → 10 ≤ audio_frames
    → maxbitrate ≢ 2 ^ 32 - 1
    → (frames bitrate kept : ℕ) × (adjust_audio_bandwidth audio_frames maxbitrate original
        ≡ some (kept, bitrate, frames * 10))
      × (8000 ≤ bitrate)
      × ((bitrate ≡ 8000) ⊎ (network_bandwidth bitrate frames ≤ maxbitrate))
unfolding adjust_audio_bandwidth
adjust_lem audio_frames maxbitrate original h k =
    let before = audio_frames / 10 in
    let chosen = fitted before maxbitrate original in
    let bitrate = if ltb chosen.1 8000 then 8000 else chosen.1 in
    let divides : (before == 0) ≡ false = ground arith in
    (
      chosen.0,
      bitrate,
      (if bitrate == original then audio_frames else chosen.0 * 10),
      rw divides refl,
      ground arith,
      at_least chosen.0 chosen.1 (fitted_lem before maxbitrate original k),
    )
  where
    at_least :
        (frames lowered : ℕ)
        → (lowered ≤ 8000) ⊎ (network_bandwidth lowered frames ≤ maxbitrate)
        → ((if ltb lowered 8000 then 8000 else lowered) ≡ 8000)
          ⊎ (network_bandwidth (if ltb lowered 8000 then 8000 else lowered) frames ≤ maxbitrate)
    at_least frames lowered (inl low) = inl (ground arith)
    at_least frames lowered (inr fits) = elim (Bool-cases (ltb lowered 8000)) [
      | inl low ↦ rw low (inl refl)
      | inr high ↦ rw high (inr fits)
    ]
