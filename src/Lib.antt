-- ===== src/Lib.antt =====
-- A model of the core of the V4L2 Codec 2.0 components for Android, with the theorems about it.
--
-- The repository has three libraries. `common` knows pixel formats, H.264 NAL units and V4L2
-- devices; `components` has the decoder and the encoder and the Codec 2.0 components around them;
-- `plugin_store` has the block pools that their buffers come from. Paths below are from the
-- repository's root.
--
-- PixelFormat (common/VideoPixelFormat.cpp): the enumeration and its switches (Tables), and the
--   sizes computed from them: planeSize, allocationSize, planeBitsPerPixel (Size).
-- Fourcc (common/Fourcc.cpp): the class Fourcc, from and to numbers and pixel formats.
-- Device (common/V4L2Device.cpp): the static conversions of V4L2Device. Format has
--   v4L2FormatToVideoFrameLayout and getNumPlanesOfV4L2PixFmt, Allocated has
--   allocatedSizeFromV4L2Format.
-- NalParser (common/NalParser.cpp): the search for start codes, and locateNextNal with the unit
--   that it finds, and locateSPS. A parser is the bytes with two positions.
-- EncodeHelpers (common/EncodeHelpers.cpp): extractSPSPPS, extractCSDInfo and prependSPSPPSToIDR,
--   on top of NalParser. The encoder and the encode component call them on encoded buffers.
-- Queue (common/V4L2Device.cpp): V4L2Queue, V4L2BuffersList and the references to their buffers.
--   Its state is the set of queued buffers, the list of free ones and their number; Steps has the
--   calls as a step relation on a queue with its live references.
-- VideoFramePool (components/VideoFramePool.cpp): the requests to a pool, the task that fetches a
--   block, its retries, and the answer to the client. The state counts what is posted. The delay
--   and the retries are static variables of getVideoFrameTask, so all pools share them (BackOff).
-- Decoder (components/V4L2Decoder.cpp): the state, decode, drain and pumpDecodeRequest (Decoder),
--   tryFetchVideoFrame and onVideoFrameReady (Output), the loops of serviceDeviceTask (Service),
--   changeResolution and setupOutputFormat (Resolution), flush and the whole of serviceDeviceTask
--   (Flush), start and setupInputFormat (Start). Inside are two V4L2Queues on one device and a
--   VideoFramePool. Valid is what holds between two calls, and the modules behind it (Returned,
--   ReturnedOutput, ValidResolution, ValidService, ValidFlush, ValidRequests, ValidStart) are
--   about one group of calls each; Ends and Terminates are about the loops; Steps has the calls
--   of the client, the posted tasks and the poll thread's notices as a step relation. Callbacks
--   and frames are numbers.
-- Poller (common/V4L2DevicePoller.cpp): the start and the stop of the poll thread.
-- Encoder (components/V4L2Encoder.cpp): the state, encode, drain, flush and the end of a drain
--   (Encoder), handleEncodeRequest (Request), serviceDeviceTask with what it gives to the client,
--   on top of EncodeHelpers (Service). Wakes, Handled and Served are about the requests that
--   wait, and Steps has the calls and the tasks as a step relation.
-- DecodeComponent (components/V4L2DecodeComponent.cpp): the state and the works
--   (DecodeComponent), how works are given back (Report), what is sent to the decoder, with
--   queueTask and drainTask (Tasks), the callbacks of the decoder and flushTask (Callbacks), and
--   the client's calls (Control). Works counts works by their frame index; Conserved, Sent,
--   Answered, Taken and Runs are about the works that each group of functions handles; Steps has
--   the calls, tasks and callbacks as a step relation, Drains is about the answer to a drain, and
--   Stays about the works that stay while the decoder answers. The listener and mDecoder are
--   lists of what they got, and the works that are freed without a report are listed as
--   destroyed.
-- FormatConverter (common/FormatConverter.cpp): the entries of the blocks and the queue of
--   available ones, Create, convertBlock and returnBlock. Blocks counts them, Steps has
--   conversions and returns in any order, Holds is about one conversion.
-- Tests: runs, and the theorems at concrete inputs.
--
-- Parameters stand for code that is not in the repository: the driver behind the ioctls (Driver
-- in Queue, Device in Decoder, Opening in Decoder/Start, EncoderDevice in Encoder, and Poller),
-- `base::bits::Align` (Bits) and `base::checked_cast` (Casts). The block pool behind a
-- VideoFramePool is the answers that it gives; that of a FormatConverter tells which blocks it
-- gives. Of the device a theorem supposes, where it says so, that VIDIOC_STREAMOFF succeeds. A
-- lemma on the loop over the output queue also supposes that giving the device a buffer does not
-- add to those that it has still to give back (IsFinite in Decoder/Ends); no property rests on
-- it. Of the events there are finitely many (events_left in Device).
--
-- Numbers are natural numbers without an upper bound. In planeSize and allocationSize a product
-- that does not fit an `int` is the value `fault`; the other products and sums of sizes are taken
-- not to wrap. Reading past the end of the data, erasing a buffer from a set that lacks it, a
-- failed assertion on the sizes of a format, and the use of a work that a duplicate bitstream id
-- has freed, are `fault` too. The loops over NAL units take fuel, one round for each byte of the
-- data and one more: a round passes at least the three bytes of a start code. The loop of
-- serviceDeviceTask over the input queue takes as many rounds as buffers are queued, and each
-- round has one less; the loop over the events one more round than there are events. The loop
-- over the output queue gives empty buffers back to the device, which may answer them at once, so
-- its number of rounds is an argument of the calls, and running out of it is a result. The loops
-- of the encoder's serviceDeviceTask are written in the same way. The other loops are recursions
-- on lists or on the number of buffers.
--
-- Not modelled: what the planes of a buffer hold, logging, threads and locks, the mapping of
-- memory; findCodedColorAspects of NalParser; getVisibleRect of V4L2Decoder, whose rectangle is
-- only passed on to the frames, and its destructor; callbacks that call the decoder again before
-- they return; the loop of the poll thread; initialize and the configuration of V4L2Encoder, and
-- the assertions of its setState; of V4L2DecodeComponent the count of its instances, the frame
-- pool that it makes, and the parsing of color aspects, which is a parameter (Interface in
-- DecodeComponent); the encode component, the interfaces of both components and the block pools;
-- of FormatConverter the pixels that libyuv writes and the mapping of an implementation-defined
-- block.
pub mod Prelude
pub mod PixelFormat
pub mod Fourcc
pub mod Device
pub mod NalParser
pub mod EncodeHelpers
pub mod Queue
pub mod VideoFramePool
pub mod Poller
pub mod Decoder
pub mod Encoder
pub mod DecodeComponent
pub mod FormatConverter
pub mod Tests
