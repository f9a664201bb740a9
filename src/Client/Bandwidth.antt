-- ===== src/Client/Bandwidth.antt =====
-- mumble/mumble.c: how the bitrate and the frames per packet are fitted to the bandwidth that the server
-- allows. A bitrate that would go below zero is 0 here: both end as 8000.
pub mod Limits
use lua_mumble.Base.{
  ◌^◌, ℕ, zero, suc, ◌+◌, ◌-◌, ◌*◌, ◌/◌, ◌&&◌, Option, none, some, ltb, leb, ◌==◌, if◌then◌else◌,
  Bool, true, false,
}

-- The division by `frames` faults on 0.
pub network_bandwidth : ℕ → ℕ → ℕ
network_bandwidth bitrate frames =
    let overhead = 8 + 8 + 4 + 8 + 24 + 4 + 1 + 4 in
    let opus_data_size = frames * (bitrate / 8) / frames * 2 in bitrate + overhead + opus_data_size

pub fit_frames : ℕ → ℕ → ℕ
fit_frames frames maxbitrate =
    if leb frames 4 && leb maxbitrate 32000
    then 4
    else if frames == 1 && leb maxbitrate 64000
    then 2
    else if frames == 2 && leb maxbitrate 48000
    then 4
    else frames

-- `do … while`; a round takes 1000 off, so that `bitrate` rounds are more than enough.
pub lower_fuel : ℕ → ℕ → ℕ → ℕ → ℕ
lower_fuel zero frames maxbitrate bitrate = bitrate
lower_fuel (suc fuel) frames maxbitrate bitrate =
    let next = bitrate - 1000 in
    let rest = lower_fuel fuel frames maxbitrate next in
    if ltb 8000 next && ltb maxbitrate (network_bandwidth next frames) then rest else next

no_limit : ℕ
no_limit = 2 ^ 32 - 1

-- The frames and the bitrate before the lower bound on it.
fitted : ℕ → ℕ → ℕ → ℕ × ℕ
unfolding no_limit
fitted frames maxbitrate bitrate =
    if maxbitrate == no_limit
    then (frames, bitrate)
    else if ltb maxbitrate (network_bandwidth bitrate frames)
    then (let fewer = fit_frames frames maxbitrate in
        (
          fewer,
          if ltb maxbitrate (network_bandwidth bitrate fewer)
              then lower_fuel bitrate fewer maxbitrate bitrate
              else bitrate,
        ))
    else (frames, bitrate)

-- What the client keeps as `audio_frames`, the bitrate of the encoder, and the returned length of the
-- timer; `none` is the division by zero. The other settings of the encoder are left out.
pub adjust_audio_bandwidth : ℕ → ℕ → ℕ → Option (ℕ × ℕ × ℕ)
unfolding fitted
adjust_audio_bandwidth audio_frames maxbitrate original =
    let before = audio_frames / 10 in
    if before == 0 && (if maxbitrate == 2 ^ 32 - 1 then false else true)
    then none
    else (let (frames, lowered) = fitted before maxbitrate original in
        let bitrate = if ltb lowered 8000 then 8000 else lowered in
        some (if bitrate == original then audio_frames else frames * 10, bitrate, frames * 10))
