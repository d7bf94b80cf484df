-- ===== src/Processor/Retry.antt =====
-- What is still to be acknowledged after a batch that is tried again.
