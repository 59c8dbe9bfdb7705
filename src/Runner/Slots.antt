-- ===== src/Runner/Slots.antt =====
-- The ranging slots of a superframe, as src/uwb_net_runner.c computes their starts.
