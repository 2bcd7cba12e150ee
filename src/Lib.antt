-- ===== src/Lib.antt =====
-- tracepress: a local proxy that observes, bounds and compresses what coding agents exchange with
-- tools and model providers. This library models the parts that decide, and leaves aside the parts
-- that only move bytes.
--
-- Parts and files
--
-- - Base.antt and Base/: what all modules share. Result with do blocks, tests on numbers, checked
--   and saturating arithmetic on 64 bits, lists measured by native numbers, byte strings, UTF-8.
-- - Core.antt: crates/tracepress-core.
--     Core/Limits.antt        src/limits.rs: ResourceLimitsConfig, ResourceLimits::try_from.
--     Core/ByteBoundary.antt  src/byte_boundary.rs: classify_raw_bytes, classify_request_body,
--                             classify_ipc_frame, classify_decompressed_length,
--                             classify_line_bytes.
--     Core/Stream.antt        src/response_stream.rs: StreamingResponseBudget::observe_chunk.
--     Core/Budget.antt        src/structural_budget.rs: classify_json_shape, classify_ipc_queue,
--                             ProcessingBudget::charge.
--     Core/Lifecycle.antt     src/lifecycle.rs and src/finalization.rs: finalize_inference.
--     Core/Binding.antt       src/binding.rs: ContextBinding::freeze and ensure_compatible.
--     Core/Identity.antt      src/content_id.rs: the text of a ContentId.
-- - Compression.antt: crates/tracepress-compression.
--     Compression/Types.antt       src/lib.rs: metadata, limits, Transform, TransformError.
--     Compression/Evaluate.antt    src/lib.rs: evaluate_with_estimator and its gates, for any
--                                  implementation of ShadowCompressor.
--     Compression/Varint.antt      src/text.rs: write_varint, read_varint, read_usize.
--     Compression/Records.antt     src/text.rs: encode_records, decode_records.
--     Compression/Text.antt        src/text.rs: lines, validate_text, and the transforms and
--                                  recoveries of TextRepeatedLine and TextRepeatedRun.
--     Compression/Compressors.antt src/text.rs: those two as ShadowCompressor values.
--     Compression/Text/Total.antt  the texts on which TextRepeatedLine cannot fail.
-- - Context.antt: crates/tracepress-context.
--     Context/Types.antt, Context/Counts.antt, Context/Delta.antt
--                                  src/delta.rs: compute_context_delta and its loops.
--     Context/Visibility.antt      src/visibility.rs: logical_context_status.
--     Context/Reconciliation.antt  src/reconciliation.rs: TokenReconciliation::reconcile.
-- - ToolProxy.antt: crates/tracepress-tool-proxy.
--     ToolProxy/Model.antt         src/model.rs: command families, contracts and decisions.
--     ToolProxy/Admission.antt     src/admission.rs: decide.
--     ToolProxy/Admission/Words.antt  what it is to be split into words at white space.
--     ToolProxy/Policy.antt        src/policy.rs: the table and active_source_policy_allowed.
-- - Ipc.antt: crates/tracepress-ipc.
--     Ipc/Frame.antt               src/frame.rs: read_frame and write_frame. The frame's size is
--                                  decided by classify_ipc_frame of Core/ByteBoundary.antt.
--     Ipc/Serialize.antt           src/frame/serialize.rs: BoundedOutput and serialize_bounded, and
--                                  write_message of src/frame.rs, which hands over to Ipc/Frame.
-- - Provider.antt: crates/tracepress-provider.
--     Provider/Domain.antt         src/domain.rs: limits, errors, states and usage records.
--     Provider/Json.antt           src/json.rs: parse_bounded and its visitor under a budget.
--     Provider/Span.antt           src/json.rs: member_span and the scans below it.
--     Provider/Span/Printed.antt   the texts of JSON objects, which that scan is to read.
--     Provider/Usage.antt          src/response.rs: extract_usage, normalize_usage, and
--                                  RawProviderUsage::new of src/domain.rs.
--     Provider/Response.antt       src/response.rs: parse_response.
--     Provider/Request.antt        src/request.rs: parse_request.
--     Provider/Sse.antt            src/sse.rs: SseFramer.
--     Provider/Interpret.antt      src/sse.rs: StreamingObserver::observe_event, without the clock.
--     Provider/Observer.antt       src/sse.rs: StreamingObserver, which feeds the framer, interprets
--                                  its events by way of Json, Span and Usage, and is ended by finish,
--                                  cancel or disconnect.
-- The proxy, the daemon and the command line call these parts; they are not modelled.
--
-- How a part corresponds to the code
--
-- A struct is a record with the source's field names, an enum a data type with its variants. A
-- method that takes &mut self returns the new state beside its answer. Result is Result, with the
-- error first so that a do block is a chain of `?`. A slice of bytes is a list of numbers; usize
-- has 64 bits, as u64. An identity (a UUID or a digest) is its number, but where its text is read
-- or written (Core/Identity.antt), where a digest is its bytes. checked_add and
-- saturating_add keep their overflow, a HashMap of counts is a function from keys to counts, to_u64
-- is u64::try_from(n).unwrap_or(u64::MAX).
--
-- Parameters: the digest (SHA-256), the token estimator and the readings of the clock are
-- parameters of Compression/Evaluate.antt, and so is the compressor. Whether memory can be
-- reserved for the slices of a record is a parameter of decode_records in
-- Compression/Records.antt. A compressor's transform takes the number of its call, since only the
-- determinism gate says that two calls agree. In Ipc/Frame.antt a reader is the list of its
-- answers, read by read, and whether memory can be reserved is a parameter; in Ipc/Serialize.antt
-- the pieces that serde_json writes are one. In Provider/Json.antt serde_json is a function from
-- the bytes to the calls that it makes to the visitor, in Provider/Usage.antt one from the bytes
-- to a value; a number of serde_json is what its accessors answer. The readings of the clock are
-- a function for each call of Provider/Observer.antt, whose record groups the fields of
-- StreamingObserver and of its response by what decides them: the events, or counters and the
-- clock.
--
-- Loops and fuel: a loop over an index that jumps forward is a recursion on the rest of the lines
-- with the number of lines still to pass. A varint is written and read in at most ten rounds, the
-- number of seven-bit groups of 64 bits, so ten rounds are enough. A read of a frame is a recursion
-- on the reader's answers. The loop of member_span has as many rounds as there are bytes and one
-- more, which is enough since a round that goes on has read a byte; a loop that used up its rounds
-- would answer differently from one that ended. The other scans are recursions on the bytes.
--
-- Not modelled: processes, sockets, files, SQL, HTTP, the dashboards and the command line, which
-- hold no decisions of their own or only call libraries; the JSON compressors and the readable
-- folds, which stand on serde_json; the tool reducers and the context extractor.
pub mod Base
pub mod Core
pub mod Compression
pub mod ToolProxy
pub mod Ipc
pub mod Context
pub mod Provider
