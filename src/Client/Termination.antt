-- ===== src/Client/Termination.antt =====
-- An operation of src/zb/ZBClient.ts whose retries are limited always settles.
