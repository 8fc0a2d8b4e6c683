-- ===== src/State/Safety/Undisturbed.antt =====
-- A restore that no fault stops.
