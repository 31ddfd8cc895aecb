-- ===== src/Response/Tests.antt =====
-- Runs of the error handlers.
use ulmara_backend.Common.{Text, [], none, text, ℕ, ◌<◌, ◌≡◌, ◌⊎◌}
use ulmara_backend.World.{Error, http, provider_failed}
use ulmara_backend.Response.{error_handler, handle_error, message_of, raised}
use ulmara_backend.Response.Messages.{handle_error_safe}

-- a provider's error without a status
abbrev provider_down : Error
provider_down = provider_failed (text "bitnob") (text "timeout") (text "POST failed") none

handle_error_safe_example :
    (((handle_error (raised provider_down)).code < 500)
      ⊎ ((handle_error (raised provider_down)).message
          ≡ text "Something went wrong. Please try again.")
      ⊎ ((s : ℕ) × (m : Text) × (provider_down ≡ http s m)
          × ((handle_error (raised provider_down)).message ≡ m)))
    × ((message_of provider_down ≡ [])
        ⊎ (handle_error (raised provider_down) ≡ error_handler provider_down))
handle_error_safe_example = handle_error_safe provider_down
